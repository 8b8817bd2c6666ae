-- ===== src/Worker/Trying.antt =====
-- What `_publish` of workers/worker.py guarantees.
use mathlib.Core.Path.{subst}
use mervio.Jobs.Lineage.{some-eq}
use mervio.Worker.Failures.{Raised, retryable_database_error}
use mervio.Worker.Publication.{
  Try, Fate, raised, gives_up, returned, published, lease_gone, unpublished, denied_lease,
  publish_margin, publish, publish_from, next_delay,
}
use mervio.Prelude.{
  ℕ, ◌≡◌, false, some, true, ◌≤◌, arith, ◌+◌, ◌<◌, suc, ◌*◌, ap, Bool-cases, inl, sym, inr, ◌∙◌,
  refl, ◌==◌, zero, ==_iff, min,
}

-- The pause after the n-th try: a tenth of a second, doubled each time, two seconds at most.
abbrev pub pause_after : ℕ → ℕ
pause_after zero = 100
pause_after (suc n) = min (pause_after n * 2) 2000

module _ (tries : ℕ → Try) (clock : ℕ → ℕ) (deadline : ℕ) where
  -- A try that failed and was followed by another one: its error may pass, and the next try was to
  -- begin, after its pause, before the deadline, less the margin.
  pub record Passed (j : ℕ) : Type 0 where
    pub error : Raised
    pub failed : tries j ≡ raised error
    pub passing : retryable_database_error error ≡ true
    pub early : clock j + pause_after j + publish_margin < deadline

  -- How a fate comes from the last try.
  abbrev pub Ends : Try → Fate → Type 0
  Ends (returned job) fate = fate ≡ published job
  Ends denied_lease fate = fate ≡ lease_gone
  Ends (raised e) fate = fate ≡ unpublished e

  gives_up-false :
      (j delay : ℕ) (e : Raised)
      → delay ≡ pause_after j
      → tries j ≡ raised e
      → gives_up deadline (clock j) delay e ≡ false
      → Passed j
  unfolding gives_up
  gives_up-false j delay e d t h = record {
    error = e;
    failed = t;
    passing = ground arith;
    early = ground (arith, d);
  }

  -- One turn of the loop: it ends, with the fate of this try, or it goes on.
  data Turn (fuel n delay : ℕ) : Type 0 where
    ends :
        (fate : Fate)
        → Ends (tries n) fate
        → publish_from tries clock deadline (suc fuel) n delay ≡ some (n, fate)
        → Turn fuel n delay
    goes_on :
        Passed n
        → publish_from tries clock deadline (suc fuel) n delay
          ≡ publish_from tries clock deadline fuel (suc n) (next_delay delay)
        → Turn fuel n delay

  split_loop :
      (fuel n delay : ℕ) (t : Try) → delay ≡ pause_after n → tries n ≡ t → Turn fuel n delay
  unfolding publish_from
  split_loop fuel n delay (returned job) d e =
      ends (published job) (rw e refl) (rw (e, publish_from) refl)
  split_loop fuel n delay denied_lease d e = ends lease_gone (rw e refl) (rw (e, publish_from) refl)
  split_loop fuel n delay (raised x) d e = elim (Bool-cases (gives_up deadline (clock n) delay x)) [
    | inl stop ↦ ends (unpublished x) (rw e refl) (rw (e, publish_from, stop) refl)
    | inr on ↦ goes_on (gives_up-false n delay x d e on) (rw (e, publish_from, on) refl)
  ]

  from-Ends :
      (fuel n delay : ℕ) {k : ℕ} {fate : Fate}
      → delay ≡ pause_after n
      → publish_from tries clock deadline fuel n delay ≡ some (k, fate)
      → Ends (tries k) fate
  unfolding publish_from
  from-Ends zero n delay d h = absurd (cc h)
  from-Ends (suc fuel) n delay {k} {fate} d h = elim (split_loop fuel n delay (tries n) d refl) [
    | ends end_ how e ↦
        let same : ◌≡◌ {A = ℕ × Fate} (n, end_) (k, fate) = some-eq (sym e ∙ h) in
        subst (λ (p : ℕ × Fate). Ends (tries p.0) p.1) same how
    | goes_on p e ↦ from-Ends fuel (suc n) (next_delay delay) (ap next_delay d) (sym e ∙ h)
  ]

  from-Passed :
      (fuel n delay j : ℕ) {k : ℕ} {fate : Fate}
      → delay ≡ pause_after n
      → publish_from tries clock deadline fuel n delay ≡ some (k, fate)
      → n ≤ j
      → j < k
      → Passed j
  unfolding publish_from
  from-Passed zero n delay j d h l u = absurd (cc h)
  from-Passed (suc fuel) n delay j {k} {fate} d h l u =
      elim (split_loop fuel n delay (tries n) d refl) [
        | ends end_ how e ↦
            let same : n ≡ k = ap (λ (p : ℕ × Fate). p.0) (some-eq (sym e ∙ h)) in
            absurd (omega (arith, same, l, u))
        | goes_on p e ↦ elim (Bool-cases (n == j)) [
          | inl here ↦ subst Passed ((==_iff n j).0 here) p
          | inr later ↦
              from-Passed fuel (suc n) (next_delay delay) j (ap next_delay d) (sym e ∙ h)
                (ground (arith, later, l)) u
        ]
      ]

  -- When `_publish` ends, it ends as its last try did: with its row, with its lost lease, or with its error.
  pub publish-Ends :
      (fuel : ℕ) {k : ℕ} {fate : Fate}
      → publish tries clock deadline fuel ≡ some (k, fate)
      → Ends (tries k) fate
  unfolding publish
  publish-Ends fuel h = from-Ends fuel 0 100 refl h

  -- Every try of `_publish` before the last one failed with an error that may pass, early enough that the
  -- next one could begin after its pause (a tenth of a second, doubled each time, two seconds at most)
  -- and before the deadline of the lease, less the margin of a second.
  pub publish-Passed :
      (fuel j : ℕ) {k : ℕ} {fate : Fate}
      → publish tries clock deadline fuel ≡ some (k, fate)
      → j < k
      → Passed j
  unfolding publish
  publish-Passed fuel j h l = from-Passed fuel 0 100 j refl h (omega arith) l

  from_enough :
      (fuel n delay : ℕ)
      → delay ≡ pause_after n
      → ((j : ℕ) → clock j + 100 ≤ clock (suc j))
      → deadline ≤ clock n + 100 * fuel
      → (k : ℕ) × (fate : Fate) × (publish_from tries clock deadline (suc fuel) n delay
          ≡ some (k, fate))
  from_enough zero n delay p0 sleeps d = elim (split_loop zero n delay (tries n) p0 refl) [
    | ends end_ how e ↦ (n, end_, e)
    | goes_on p e ↦ absurd (omega (arith, d, p.early))
  ]
  from_enough (suc f) n delay p0 sleeps d = elim (split_loop (suc f) n delay (tries n) p0 refl) [
    | ends end_ how e ↦ (n, end_, e)
    | goes_on p e ↦
        let (k, fate, r) =
          from_enough f (suc n) (next_delay delay) (ap next_delay p0) sleeps
            (omega (arith, d, sleeps n)) in
        (k, fate, e ∙ r)
  ]

  -- `_publish` ends: when each pause takes at least a tenth of a second, it needs at most one try for each
  -- tenth of a second until the deadline, and one more.
  pub publish_returns :
      (fuel : ℕ)
      → ((j : ℕ) → clock j + 100 ≤ clock (suc j))
      → deadline ≤ clock 0 + 100 * fuel
      → (k : ℕ) × (fate : Fate) × (publish tries clock deadline (suc fuel) ≡ some (k, fate))
  unfolding publish
  publish_returns fuel sleeps d = from_enough fuel 0 100 refl sleeps d
