-- ===== src/Jobs/Trigger.antt =====
-- What the trigger and the constraints enforce of any UPDATE, raw SQL included.
use mervio.Json.{fields_eq_refl}
use mervio.Prelude.{
  ◌+◌, ◌≡◌, true, false, ◌⊎◌, inr, arith, ℕ, Bool, refl, List, Each, ◌∷◌, ap, Bool-cases, inl, [],
  Each-map, opt_eq_refl, str_eq, str_eq_refl, ◌==◌, ==_refl,
}
use mervio.Error.{ok, ok-injective, >>=-eq-ok}
use mervio.Jobs.Record.{
  JobRecord, queued, running, is_terminal_status, JobStatus, succeeded, failed, cancelled, JobType,
  type_eq, import_, analysis, purge,
}
use mervio.Jobs.Guard.{
  Instant, Settings, row_checks, same_identity, legal_transition, guard_claim, guard_running,
  guard_transition, write_row, update_rows,
}

-- How an accepted write moves the counter of attempts.
abbrev pub Counted : JobRecord → JobRecord → Type 0
Counted old new =
    ((old.status ≡ queued) × (new.status ≡ running) × (new.attempts ≡ old.attempts + 1))
    ⊎ ((¬ ((old.status ≡ queued) × (new.status ≡ running))) × (new.attempts ≡ old.attempts))

pub record Accepted (old new : JobRecord) : Type 0 where
  pub identity : same_identity old new ≡ true
  pub open_ : is_terminal_status old.status ≡ false
  pub legal : legal_transition old.status new.status ≡ true
  pub counted : Counted old new
  pub checked : row_checks new ≡ true

module _ (instant : Instant) (settings : Settings) (old new : JobRecord) where
  guard_transition-identity :
      guard_transition instant settings old new ≡ ok tt → same_identity old new ≡ true
  unfolding guard_transition
  guard_transition-identity h = ground arith

  guard_transition-open :
      guard_transition instant settings old new ≡ ok tt → is_terminal_status old.status ≡ false
  unfolding guard_transition
  guard_transition-open h = ground arith

  pub guard_transition-legal :
      guard_transition instant settings old new ≡ ok tt
      → legal_transition old.status new.status ≡ true
  unfolding guard_transition
  guard_transition-legal h = ground arith

  guard_transition-queued :
      guard_transition instant settings old new ≡ ok tt
      → old.status ≡ queued
      → guard_claim old new ≡ ok tt
  unfolding guard_transition
  guard_transition-queued h q = ground arith

  pub guard_transition-running :
      guard_transition instant settings old new ≡ ok tt
      → old.status ≡ running
      → guard_running instant settings old new ≡ ok tt
  unfolding guard_transition
  guard_transition-running h q = ground arith

  guard_claim-Counted : old.status ≡ queued → guard_claim old new ≡ ok tt → Counted old new
  unfolding guard_claim
  guard_claim-Counted q h = ground arith

  guard_running-Counted :
      old.status ≡ running → guard_running instant settings old new ≡ ok tt → Counted old new
  unfolding guard_running
  guard_running-Counted q h = inr ((λ p. cc (p.0)), ground arith)

abbrev stamp : ℕ → JobRecord → JobRecord
stamp t job = record job { updated_at = t }

module _ (instant : Instant) (settings : Settings) (old new : JobRecord) where
  guard_transition-Counted : guard_transition instant settings old new ≡ ok tt → Counted old new
  guard_transition-Counted h = go old.status refl
    where
      go : (s : JobStatus) → old.status ≡ s → Counted old new
      go queued q =
          guard_claim-Counted instant settings old new q
            (guard_transition-queued instant settings old new h q)
      go running q =
          guard_running-Counted instant settings old new q
            (guard_transition-running instant settings old new h q)
      go succeeded q = cc (q, guard_transition-open instant settings old new h)
      go failed q = cc (q, guard_transition-open instant settings old new h)
      go cancelled q = cc (q, guard_transition-open instant settings old new h)

  -- What an accepted write of one row says of the row before and after.
  pub write_row-stamp :
      {w : JobRecord}
      → write_row instant settings old new ≡ ok w
      → (guard_transition instant settings old new ≡ ok tt)
        × (row_checks w ≡ true)
        × (w ≡ stamp instant.guard_clock new)
  unfolding write_row
  write_row-stamp h = ground arith

  pub write_row-Accepted :
      {w : JobRecord} → write_row instant settings old new ≡ ok w → Accepted old w
  unfolding same_identity
  write_row-Accepted h =
      let (passed, checked, e) = write_row-stamp h in
      rw e (record {
        identity = guard_transition-identity instant settings old new passed;
        open_ = guard_transition-open instant settings old new passed;
        legal = guard_transition-legal instant settings old new passed;
        counted = guard_transition-Counted passed;
        checked = rw e at checked;
      })

-- A finished row is the same after any UPDATE, and no row loses its identity, makes a transition
-- outside the graph or has its attempts counted otherwise than by a claim.
pub record Governed (old new : JobRecord) : Type 0 where
  pub frozen : is_terminal_status old.status ≡ true → old ≡ new
  pub kept : same_identity old new ≡ true
  pub moved : (old ≡ new) ⊎ (legal_transition old.status new.status ≡ true)
  pub counted : Counted old new
  pub checked : row_checks old ≡ true → row_checks new ≡ true

pub type_eq_refl : (t : JobType) → type_eq t t ≡ true
type_eq_refl import_ = refl
type_eq_refl analysis = refl
type_eq_refl purge = refl

pub same_identity_refl : (job : JobRecord) → same_identity job job ≡ true
unfolding same_identity
same_identity_refl job = ground (
  arith,
  type_eq_refl job.job_type,
  fields_eq_refl job.payload,
  opt_eq_refl str_eq str_eq_refl job.idempotency_key,
  opt_eq_refl ◌==◌ ==_refl job.store_id,
  opt_eq_refl ◌==◌ ==_refl job.enqueued_by,
)

pub Governed-refl : (job : JobRecord) → Governed job job
Governed-refl job = record {
  frozen = λ _. refl;
  kept = same_identity_refl job;
  moved = inl refl;
  counted = inr ((λ p. cc (p.0, p.1)), refl);
  checked = λ c. c;
}

module _ (i : Instant) (s : Settings) (test : JobRecord → Bool) (set : JobRecord → JobRecord) where
  pub record Wrote (old new : JobRecord) : Type 0 where
    pub selected : test old ≡ true
    pub passed : guard_transition i s old (set old) ≡ ok tt
    pub stamped : new ≡ stamp i.guard_clock (set old)
    pub accepted : Accepted old new

  abbrev pub Written : JobRecord → JobRecord → Type 0
  Written old new = (old ≡ new) ⊎ Wrote old new

  -- Every row that an UPDATE leaves is the old one, or passed the test, the trigger and the
  -- constraints.
  pub update_rows-Written :
      (rows : List JobRecord) {after returned : List JobRecord}
      → update_rows i s test set rows ≡ ok (after, returned)
      → Each Written rows after
  unfolding update_rows
  update_rows-Written [] h =
      rw (← ap (λ (p : List JobRecord × List JobRecord). p.0) (ok-injective h)) tt
  update_rows-Written (row ∷ rows) {after} {returned} h =
      let ((rest, out), done, next) = >>=-eq-ok (update_rows i s test set rows) _ h in
      let ih = update_rows-Written rows done in
      elim (Bool-cases (test row)) [
        | inl t ↦
            let (new, wrote, e) = >>=-eq-ok (write_row i s row (set row)) _ (rw t at next) in
            rw (← ap (λ (p : List JobRecord × List JobRecord). p.0) (ok-injective e)) (
              inr (record {
                selected = t;
                passed = (write_row-stamp i s row (set row) wrote).0;
                stamped = (write_row-stamp i s row (set row) wrote).2;
                accepted = write_row-Accepted i s row (set row) wrote;
              }),
              ih,
            )
        | inr f ↦
            rw (← ap (λ (p : List JobRecord × List JobRecord). p.0) (ok-injective (rw f at next)))
              (inl refl, ih)
      ]

module _ {i : Instant} {s : Settings} {test : JobRecord → Bool} {set : JobRecord → JobRecord} where
  pub Written-Governed : (old new : JobRecord) → Written i s test set old new → Governed old new
  Written-Governed old new (inl e) = rw (← e) (Governed-refl old)
  Written-Governed old new (inr w) = record {
    frozen = λ t. cc (t, w.accepted.open_);
    kept = w.accepted.identity;
    moved = inr w.accepted.legal;
    counted = w.accepted.counted;
    checked = λ _. w.accepted.checked;
  }

-- Every row of the table is governed by the trigger through any UPDATE that it accepts.
pub update_rows-Governed :
    (i : Instant) (s : Settings) (test : JobRecord → Bool) (set : JobRecord → JobRecord)
    (rows : List JobRecord) {after returned : List JobRecord}
    → update_rows i s test set rows ≡ ok (after, returned)
    → Each Governed rows after
update_rows-Governed i s test set rows {after} h =
    Each-map (Written i s test set) Governed Written-Governed rows after
      (update_rows-Written i s test set rows h)
