-- ===== src/Jobs/Agreement/Ending.antt =====
-- The renewal and the end of an attempt, by its holder.
use mervio.Jobs.Agreement.{running-accepted, stamped_at, write_row-ok}
use mervio.Jobs.Token.{codes_eq_refl, lease_token}
use mervio.Json.{Fields, fields_eq, fields_eq_refl}
use mervio.Json.Dump.{str_len}
use mathlib.Core.Path.{subst}
use mervio.Jobs.Attempt.{
  declared_token, attempt_settings, succeeded_row, renewed_row, requeued_row, failed_row,
}
use mervio.Jobs.Trigger.{same_identity_refl}
use mervio.Error.{ok}
use mervio.Prelude.{
  ◌≡◌, true, ◌≤◌, refl, some, arith, String, ℕ, leb, &&-both, false, str_eq, Option, Bool-cases,
  inr, inl, str_eq_iff, opt_eq_refl, str_eq_refl, ◌==◌, ==_refl,
}
use mervio.Jobs.Record.{JobRecord, running, status_eq}
use mervio.Jobs.Queue.{coalesce}
use mervio.Jobs.Guard.{
  write_row, Instant, row_checks, guard_transition, lock_consistent, same_identity,
  finished_consistent, texts_in_range, length_between, legal_transition, holder_of, ordered,
  guard_running, guard_renewal, only_lease, sql_lt,
}

pub non_empty_text : (s : String) → leb 1 (str_len s) ≡ true → str_eq s "" ≡ false
non_empty_text s h = elim (Bool-cases (str_eq s "")) [
  | inr f ↦ f
  | inl t ↦ cc (rw ((str_eq_iff s "").0 t) at h)
]

locked_by-length :
    (row : JobRecord) → row_checks row ≡ true → length_between 1 100 row.locked_by ≡ true
unfolding row_checks texts_in_range
locked_by-length row c = ground arith

-- The declared token is the one that the trigger expects of the row.
holder_of-declared :
    (job row : JobRecord) (holder : String)
    → row.locked_by ≡ some holder
    → row.attempts ≡ job.attempts
    → row_checks row ≡ true
    → holder_of (attempt_settings job (some holder)) row ≡ some true
unfolding holder_of declared_token
holder_of-declared job row holder l a c =
    let long : length_between 1 100 (some holder) ≡ true =
      subst (λ o. length_between 1 100 o ≡ true) l (locked_by-length row c) in
    ground (
      arith,
      non_empty_text holder (&&-both _ _ long).0,
      codes_eq_refl (lease_token job.attempts holder),
    )

-- The holder of an attempt: the row is running at the attempt of the job, locked by the holder.
pub record Holds (job : JobRecord) (holder : String) (row : JobRecord) : Type 0 where
  pub active : row.status ≡ running
  pub locked : row.locked_by ≡ some holder
  pub attempt_of : row.attempts ≡ job.attempts
  pub valid : row_checks row ≡ true

module _ (i : Instant) (job : JobRecord) (holder : String) (row : JobRecord)
    (h : Holds job holder row) where
  ends-guard :
      (new : JobRecord)
      → same_identity row new ≡ true
      → status_eq new.status running ≡ false
      → legal_transition running new.status ≡ true
      → new.attempts ≡ row.attempts
      → guard_transition i (attempt_settings job (some holder)) row new ≡ ok tt
  unfolding guard_running
  ends-guard new same ends legal a =
      running-accepted i (attempt_settings job (some holder)) row new same h.active legal
        (omega arith)
        (ground (arith, holder_of-declared job row holder h.locked h.attempt_of h.valid))

  -- Success, of an attempt that did not start after it finishes.
  pub succeed_accepted :
      (now : Option ℕ) (result : Fields)
      → ordered row.started_at (some (coalesce now i.now)) ≡ true
      → write_row i (attempt_settings job (some holder)) row (succeeded_row i now result row)
        ≡ ok (stamped_at i (succeeded_row i now result row))
  unfolding succeeded_row same_identity legal_transition row_checks lock_consistent
      finished_consistent texts_in_range
  succeed_accepted now result o =
      write_row-ok i (attempt_settings job (some holder)) row (succeeded_row i now result row)
        (ends-guard (succeeded_row i now result row) (same_identity_refl row) refl refl refl)
        (ground (arith, h.active, h.valid, o))

  -- Terminal failure, with a code and a message that fit their columns.
  pub fail_accepted :
      (now : Option ℕ) (code message : String)
      → length_between 1 100 (some code) ≡ true
      → length_between 0 2000 (some message) ≡ true
      → ordered row.started_at (some (coalesce now i.now)) ≡ true
      → write_row i (attempt_settings job (some holder)) row (failed_row i now code message row)
        ≡ ok (stamped_at i (failed_row i now code message row))
  unfolding failed_row same_identity legal_transition row_checks lock_consistent finished_consistent
      texts_in_range
  fail_accepted now code message c m o =
      write_row-ok i (attempt_settings job (some holder)) row (failed_row i now code message row)
        (ends-guard (failed_row i now code message row) (same_identity_refl row) refl refl refl)
        (ground (arith, h.active, h.valid, o, c, m))

  -- Return to the queue.
  pub requeue_accepted :
      (now : Option ℕ) (delay : ℕ) (code error : Option String)
      → length_between 1 100 code ≡ true
      → length_between 0 2000 error ≡ true
      → write_row i
          (attempt_settings job (some holder))
          row
          (requeued_row i now delay code error row)
        ≡ ok (stamped_at i (requeued_row i now delay code error row))
  unfolding requeued_row same_identity legal_transition row_checks lock_consistent
      finished_consistent texts_in_range
  requeue_accepted now delay code error c m =
      write_row-ok i (attempt_settings job (some holder)) row
        (requeued_row i now delay code error row)
        (ends-guard (requeued_row i now delay code error row) (same_identity_refl row) refl refl
          refl)
        (ground (arith, h.active, h.valid, c, m))

  only_lease-renewed : (lease_seconds : ℕ) → only_lease row (renewed_row i lease_seconds row) ≡ true
  unfolding only_lease renewed_row
  only_lease-renewed lease_seconds = ground (
    arith,
    opt_eq_refl str_eq str_eq_refl row.locked_by,
    opt_eq_refl ◌==◌ ==_refl row.locked_at,
    opt_eq_refl ◌==◌ ==_refl row.started_at,
    opt_eq_refl ◌==◌ ==_refl row.finished_at,
    opt_eq_refl str_eq str_eq_refl row.last_error_code,
    opt_eq_refl str_eq str_eq_refl row.last_error,
    opt_eq_refl fields_eq fields_eq_refl row.result,
  )

  -- A renewal, while the lease runs and the clock does not go back.
  renew-guard :
      (lease_seconds : ℕ)
      → lease_seconds ≤ 86400
      → i.now ≤ i.guard_clock
      → sql_lt (some i.guard_clock) row.lease_expires_at ≡ true
      → guard_running i (attempt_settings job (some holder)) row (renewed_row i lease_seconds row)
        ≡ ok tt
  unfolding guard_running guard_renewal renewed_row
  renew-guard lease_seconds l t g =
      let held = holder_of-declared job row holder h.locked h.attempt_of h.valid in
      let only : only_lease row (renewed_row i lease_seconds row) ≡ true =
        only_lease-renewed lease_seconds in
      ground (arith, held, only, h.active)

  pub renew_accepted :
      (lease_seconds : ℕ)
      → lease_seconds ≤ 86400
      → i.now ≤ i.guard_clock
      → sql_lt (some i.guard_clock) row.lease_expires_at ≡ true
      → write_row i (attempt_settings job (some holder)) row (renewed_row i lease_seconds row)
        ≡ ok (stamped_at i (renewed_row i lease_seconds row))
  unfolding renewed_row same_identity legal_transition row_checks lock_consistent
      finished_consistent texts_in_range
  renew_accepted lease_seconds l t g =
      write_row-ok i (attempt_settings job (some holder)) row (renewed_row i lease_seconds row)
        (running-accepted i (attempt_settings job (some holder)) row
          (renewed_row i lease_seconds row) (same_identity_refl row) h.active (rw h.active refl)
          (omega arith) (renew-guard lease_seconds l t g))
        (ground (arith, h.active, h.valid))
