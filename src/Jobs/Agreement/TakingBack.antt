-- ===== src/Jobs/Agreement/TakingBack.antt =====
-- The recovery of a job whose lease has run out.
use mervio.Jobs.Record.{queued, failed}
use mervio.Jobs.Agreement.{stamped_at, running-accepted, write_row-ok}
use mervio.Jobs.Recovery.{taken_back, recovered_row, exhausted_row}
use mervio.Jobs.Trigger.{same_identity_refl}
use mervio.Error.{ok}
use mervio.Prelude.{
  ◌≡◌, true, refl, some, arith, ℕ, false, str_eq, Bool-cases, inr, inl, none, opt_eq, ltb, ◌<◌, ◌⊎◌,
  ◌≤◌,
}
use mervio.Jobs.Record.{JobRecord, running, status_eq, succeeded}
use mervio.Jobs.Guard.{
  write_row, Instant, row_checks, guard_transition, Settings, lock_consistent, same_identity,
  finished_consistent, texts_in_range, legal_transition, holder_of, ordered, guard_running,
  guard_recovery, sql_lt,
}

abbrev pub recovery_settings : ℕ → Settings
recovery_settings at = record { lease_token = none; recovery_at = some at }

takes_back-guard :
    (i : Instant) (at : ℕ) (row new : JobRecord)
    → row.status ≡ running
    → sql_lt row.lease_expires_at (some at) ≡ true
    → same_identity row new ≡ true
    → legal_transition running new.status ≡ true
    → status_eq new.status running ≡ false
    → status_eq new.status succeeded ≡ false
    → new.attempts ≡ row.attempts
    → opt_eq str_eq new.last_error_code (some "lease_expired") ≡ true
    → guard_transition i (recovery_settings at) row new ≡ ok tt
unfolding guard_running guard_recovery holder_of
takes_back-guard i at row new r e same legal ne ns a code =
    running-accepted i (recovery_settings at) row new same r legal (omega arith) (ground arith)

-- Where a recovered row goes: with attempts left it waits from the instant of the recovery on, and else
-- it failed at that instant; either way its attempts are kept, its lock and its lease are gone, and the
-- error says that the lease expired.
pub record TakenBack (at : ℕ) (row new : JobRecord) : Type 0 where
  pub fate :
      ((row.attempts < row.max_attempts) × (new.status ≡ queued) × (new.available_at ≡ at))
      ⊎ ((row.max_attempts ≤ row.attempts) × (new.status ≡ failed) × (new.finished_at ≡ some at))
  pub counted : new.attempts ≡ row.attempts
  pub unlocked : new.locked_by ≡ none
  pub unleased : new.lease_expires_at ≡ none
  pub named : new.last_error_code ≡ some "lease_expired"

-- The database accepts the recovery of a running row that passes the constraints, whose lease ended before
-- the instant of the recovery, and which did not start after that instant: with attempts left it goes
-- back to the queue, available from that instant on, and else it has failed at it. Its attempts are kept,
-- its lock and its lease are gone, and its error code says that the lease expired.
pub take_back_accepted :
    (i : Instant) (at : ℕ) (row : JobRecord)
    → row.status ≡ running
    → sql_lt row.lease_expires_at (some at) ≡ true
    → ordered row.started_at (some at) ≡ true
    → row_checks row ≡ true
    → (new : JobRecord) × (write_row i (recovery_settings at) row (taken_back i at row row)
        ≡ ok new)
      × TakenBack at row new
unfolding taken_back recovered_row exhausted_row same_identity legal_transition row_checks
    lock_consistent finished_consistent texts_in_range
take_back_accepted i at row r e o c = elim (Bool-cases (ltb row.attempts row.max_attempts)) [
  | inl more ↦ (
    stamped_at i (recovered_row i at row),
    rw more (
        write_row-ok i (recovery_settings at) row (recovered_row i at row)
          (takes_back-guard i at row (recovered_row i at row) r e (same_identity_refl row) refl refl
            refl refl refl)
          (ground (arith, c, r))),
    record {
      fate = inl (ground (arith, more), refl, refl);
      counted = refl;
      unlocked = refl;
      unleased = refl;
      named = refl;
    },
  )
  | inr last ↦ (
    stamped_at i (exhausted_row i at row),
    rw last (
        write_row-ok i (recovery_settings at) row (exhausted_row i at row)
          (takes_back-guard i at row (exhausted_row i at row) r e (same_identity_refl row) refl refl
            refl refl refl)
          (ground (arith, c, r, o))),
    record {
      fate = inr (ground (arith, last), refl, refl);
      counted = refl;
      unlocked = refl;
      unleased = refl;
      named = refl;
    },
  )
]
