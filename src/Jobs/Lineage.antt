-- ===== src/Jobs/Lineage.antt =====
-- What the table keeps of one row from one operation to the next.
use mervio.Jobs.Machine.{CallKind, by_purge}
use mervio.Jobs.Recovery.{delete_rows}
use mervio.Jobs.Queue.{find_row, has_id}
use mervio.Jobs.Table.{
  same_identity-organization, same_identity-max_attempts, Updates, IsValid, Table, unchanged, Step,
  UniqueIds, next, updated, added, removed, same_identity-id, All-delete_rows,
}
use mervio.Jobs.Trigger.{Governed}
use mervio.Prelude.{
  ℕ, Option, List, ◌∙◌, arith, ◌≡◌, some, none, true, inl, ◌≤◌, inr, refl, Each, All, Bool, ◌≢◌,
  ◌∷◌, false, ◌⊎◌, Bool-cases, ==_iff, [],
}
use mervio.Jobs.Record.{JobRecord, is_terminal_status}

-- A finished row is kept as it is; any other keeps its owner, its type and its bound, and never loses
-- an attempt.
pub record Lineage (old new : JobRecord) : Type 0 where
  pub frozen : is_terminal_status old.status ≡ true → old ≡ new
  pub owner : new.organization_id ≡ old.organization_id
  pub bound : new.max_attempts ≡ old.max_attempts
  pub counted : old.attempts ≤ new.attempts

Lineage-refl : (job : JobRecord) → Lineage job job
Lineage-refl job = record { frozen = λ _. refl; owner = refl; bound = refl; counted = omega arith }

Lineage-trans : (a b c : JobRecord) → Lineage a b → Lineage b c → Lineage a c
Lineage-trans a b c f g = record {
  frozen = λ t. f.frozen t ∙ g.frozen (rw (← f.frozen t) t);
  owner = g.owner ∙ f.owner;
  bound = g.bound ∙ f.bound;
  counted = omega (arith, f.counted, g.counted);
}

Governed-Lineage : (old new : JobRecord) → Governed old new → Lineage old new
Governed-Lineage old new g = record {
  frozen = g.frozen;
  owner = same_identity-organization old new g.kept;
  bound = same_identity-max_attempts old new g.kept;
  counted = elim g.counted [ inl p ↦ omega (arith, p.2) | inr p ↦ omega (arith, p.1) ];
}

abbrev pub row_of : ℕ → List JobRecord → Option JobRecord
row_of id rows = find_row (has_id id) rows

-- The row of an identifier descends from the row before, or a purge has taken it.
abbrev pub Descends : CallKind → JobRecord → Option JobRecord → Type 0
Descends k old none = k ≡ by_purge
Descends k old (some new) = Lineage old new

pub some-eq {ℓ} : {A : Type ℓ} {a b : A} → some a ≡ some b → a ≡ b
some-eq h = cc

pub find_row-head :
    (test : JobRecord → Bool) (row : JobRecord) (rows : List JobRecord)
    → test row ≡ true
    → find_row test (row ∷ rows) ≡ some row
unfolding find_row
find_row-head test row rows h = rw h

pub find_row-tail :
    (test : JobRecord → Bool) (row : JobRecord) (rows : List JobRecord)
    → test row ≡ false
    → find_row test (row ∷ rows) ≡ find_row test rows
unfolding find_row
find_row-tail test row rows h = rw h

abbrev Heir : ℕ → JobRecord → List JobRecord → Type 0
Heir id old after = (new : JobRecord) × (row_of id after ≡ some new) × Lineage old new

module _ (organization : ℕ) (k : CallKind) (id : ℕ) where
  Heir-Each :
      (rows after : List JobRecord) (old : JobRecord)
      → Each (Step organization k) rows after
      → row_of id rows ≡ some old
      → Heir id old after
  unfolding find_row
  Heir-Each [] [] old h e = cc
  Heir-Each (row ∷ rows) (new ∷ after) old h e =
      let same : new.id ≡ row.id = same_identity-id row new h.0.governed.kept in
      elim (Bool-cases (has_id id row)) [
        | inl t ↦ (
          new,
          find_row-head (has_id id) new after (rw same t),
          rw (← some-eq (rw t at e)) (Governed-Lineage row new h.0.governed),
        )
        | inr f ↦
            let (heir, found, line) = Heir-Each rows after old h.1 (rw f at e) in
            (heir, find_row-tail (has_id id) new after (rw same f) ∙ found, line)
      ]
  Heir-Each [] (new ∷ after) old h e = absurd h
  Heir-Each (row ∷ rows) [] old h e = absurd h

  Heir-Updates :
      {rows after : List JobRecord} (old : JobRecord)
      → Updates organization k rows after
      → row_of id rows ≡ some old
      → Heir id old after
  Heir-Updates old (unchanged rows) e = (old, e, Lineage-refl old)
  Heir-Updates old (next a b c f s) e =
      let (mid, found, line) = Heir-Updates old f e in
      let (new, last, more) = Heir-Each b c mid s found in
      (new, last, Lineage-trans old mid new line more)

  pub row_of-absent :
      (rows : List JobRecord) → All (λ (r : JobRecord). r.id ≢ id) rows → row_of id rows ≡ none
  unfolding find_row
  row_of-absent [] h = refl
  row_of-absent (row ∷ rows) h = elim (Bool-cases (has_id id row)) [
    | inl t ↦ absurd (h.0 ((==_iff row.id id).0 t))
    | inr f ↦ rw f (row_of-absent rows h.1)
  ]

  row_of-delete_rows :
      (test : JobRecord → Bool) (rows : List JobRecord) (old : JobRecord)
      → UniqueIds rows
      → row_of id rows ≡ some old
      → (row_of id (delete_rows test rows).0 ≡ none)
        ⊎ (row_of id (delete_rows test rows).0 ≡ some old)
  unfolding find_row delete_rows
  row_of-delete_rows test [] old u e = cc
  row_of-delete_rows test (row ∷ rows) old u e = elim (Bool-cases (has_id id row)) [
    | inl t ↦
        let gone : row_of id (delete_rows test rows).0 ≡ none =
          row_of-absent (delete_rows test rows).0
            (All-delete_rows (λ r. r.id ≢ id) test rows (rw ((==_iff row.id id).0 t) at u.0)) in
        elim (Bool-cases (test row)) [
          | inl d ↦ rw d (inl gone)
          | inr d ↦ rw (d, t) (inr (rw t at e))
        ]
    | inr f ↦
        let ih = row_of-delete_rows test rows old u.1 (rw f at e) in
        elim (Bool-cases (test row)) [ inl d ↦ rw d ih | inr d ↦ rw (d, f) ih ]
  ]

  -- After any operation, a row descends from what it was, or it is gone in a purge.
  pub row_of-Table :
      {rows after : List JobRecord} (old : JobRecord)
      → IsValid rows
      → Table organization k rows after
      → row_of id rows ≡ some old
      → Descends k old (row_of id after)
  row_of-Table old v (updated rows after u) e =
      let (new, found, line) = Heir-Updates old u e in rw found line
  row_of-Table old v (added new rows l a) e = elim (Bool-cases (has_id id new)) [
    | inl t ↦ cc (e, row_of-absent rows (rw ((==_iff new.id id).0 t) at a.fresh))
    | inr f ↦ rw (find_row-tail (has_id id) new rows f, e) (Lineage-refl old)
  ]
  row_of-Table old v (removed test rows after l eq r) e =
      elim (row_of-delete_rows test rows old v.unique e) [
        | inl gone ↦ rw (eq, gone) l
        | inr still ↦ rw (eq, still) (Lineage-refl old)
      ]
