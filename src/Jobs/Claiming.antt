-- ===== src/Jobs/Claiming.antt =====
-- What the claim of persistence/jobs.py takes, and in which order.
use mervio.Jobs.Lineage.{some-eq}
use mervio.Jobs.Returned.{In}
use mervio.Prelude.{
  ◌≡◌, false, true, arith, Bool, List, none, some, ◌∷◌, All, Bool-cases, inl, inr, Option-cases, [],
  refl, All-map, ◌⊎◌,
}
use mervio.Jobs.Schedule.{comes_before, pick_first}
use mervio.Jobs.Record.{ℤ, int_ltb, JobRecord}

int_ltb-asym : (a b : ℤ) → int_ltb a b ≡ true → int_ltb b a ≡ false
int_ltb-asym a b h = ground arith

comes_before-asym : (a b : JobRecord) → comes_before a b ≡ true → comes_before b a ≡ false
unfolding comes_before
comes_before-asym a b h = ground arith

comes_before-cotrans :
    (a b c : JobRecord)
    → comes_before a b ≡ false
    → comes_before b c ≡ false
    → comes_before a c ≡ false
unfolding comes_before
comes_before-cotrans a b c h k = ground arith

-- The chosen row is one that passes the test, and none that passes comes before it.
pub record First (test : JobRecord → Bool) (rows : List JobRecord) (chosen : JobRecord)
    : Type 0 where
  pub member : In chosen rows
  pub eligible : test chosen ≡ true
  pub least : All (λ row. (test row ≡ false) ⊎ (comes_before row chosen ≡ false)) rows

pub pick_first-none :
    (test : JobRecord → Bool) (rows : List JobRecord)
    → pick_first comes_before test rows ≡ none
    → All (λ row. test row ≡ false) rows
unfolding pick_first
pick_first-none test [] h = tt
pick_first-none test (row ∷ rows) h = elim (Bool-cases (test row)) [
  | inl t ↦ cc (rw t at h)
  | inr f ↦ (f, pick_first-none test rows (rw f at h))
]

comes_before_irrefl : (a : JobRecord) → comes_before a a ≡ false
unfolding comes_before
comes_before_irrefl a = ground arith

First-here :
    (test : JobRecord → Bool) (row : JobRecord) (rows : List JobRecord)
    → test row ≡ true
    → All (λ other. (test other ≡ false) ⊎ (comes_before other row ≡ false)) rows
    → First test (row ∷ rows) row
First-here test row rows t h = record {
  member = inl refl;
  eligible = t;
  least = (inr (comes_before_irrefl row), h);
}

First-later :
    (test : JobRecord → Bool) (row : JobRecord) (rows : List JobRecord) {chosen : JobRecord}
    → (test row ≡ false) ⊎ (comes_before row chosen ≡ false)
    → First test rows chosen
    → First test (row ∷ rows) chosen
First-later test row rows h f = record {
  member = inr f.member;
  eligible = f.eligible;
  least = (h, f.least);
}

pub pick_first-First :
    (test : JobRecord → Bool) (rows : List JobRecord) {chosen : JobRecord}
    → pick_first comes_before test rows ≡ some chosen
    → First test rows chosen
unfolding pick_first
pick_first-First test [] h = absurd (cc h)
pick_first-First test (row ∷ rows) {chosen} h = elim (Bool-cases (test row)) [
  | inr f ↦ First-later test row rows (inl f) (pick_first-First test rows (rw f at h))
  | inl t ↦ elim (Option-cases (pick_first comes_before test rows)) [
    | inl empty ↦ rw (← some-eq (rw (t, empty) at h)) (
        First-here test row rows t (
          All-map (λ other. test other ≡ false)
            (λ other. (test other ≡ false) ⊎ (comes_before other row ≡ false)) (λ other f. inl f)
            rows (pick_first-none test rows empty)))
    | inr p ↦
        let best = pick_first-First test rows p.1 in
        elim (Bool-cases (comes_before p.0 row)) [
          | inl before ↦
              rw (← some-eq (rw (t, p.1, before) at h))
                (First-later test row rows (inr (comes_before-asym p.0 row before)) best)
          | inr after ↦ rw (← some-eq (rw (t, p.1, after) at h)) (
              First-here test row rows t (
                All-map (λ other. (test other ≡ false) ⊎ (comes_before other p.0 ≡ false))
                  (λ other. (test other ≡ false) ⊎ (comes_before other row ≡ false))
                  (λ other g. elim g [
                    | inl f ↦ inl f
                    | inr b ↦ inr (comes_before-cotrans other p.0 row b after)
                  ])
                  rows best.least))
        ]
  ]
]
