-- ===== src/Jobs/Agreement.antt =====
-- The UPDATEs of persistence/jobs.py and the database agree: what a statement writes to a row that
-- its WHERE selects passes the trigger and the constraints.
pub mod Ending
pub mod TakingBack
use mervio.Jobs.Schedule.{check_lease_seconds}
use mervio.Jobs.Trigger.{same_identity_refl}
use mervio.Error.{ok}
use mervio.Prelude.{◌≡◌, true, ◌≤◌, refl, ◌<◌, some, arith, ℕ, Bool}
use mervio.Jobs.Record.{JobRecord, queued, running}
use mervio.Jobs.Queue.{
  claimed_row, Claim, no_settings, is_candidate, cancelled_row, check_worker_id,
}
use mervio.Jobs.Guard.{
  write_row, Instant, row_checks, guard_transition, guard_claim, Settings, lock_consistent,
  same_identity, finished_consistent, texts_in_range, length_between, legal_transition, ordered,
  guard_running,
}

-- `new` as the trigger stamps it.
abbrev pub stamped_at : Instant → JobRecord → JobRecord
stamped_at i new = record new { updated_at = i.guard_clock }

pub write_row-ok :
    (i : Instant) (s : Settings) (old new : JobRecord)
    → guard_transition i s old new ≡ ok tt
    → row_checks (stamped_at i new) ≡ true
    → write_row i s old new ≡ ok (stamped_at i new)
unfolding write_row
write_row-ok i s old new h c = rw (h, c) refl

claimed_row-identity :
    (i : Instant) (claim : Claim) (row : JobRecord)
    → same_identity row (claimed_row i claim row) ≡ true
unfolding claimed_row same_identity
claimed_row-identity i claim row = same_identity_refl row

pub queued-accepted :
    (i : Instant) (s : Settings) (old new : JobRecord)
    → same_identity old new ≡ true
    → old.status ≡ queued
    → legal_transition queued new.status ≡ true
    → old.attempts ≤ new.attempts
    → guard_claim old new ≡ ok tt
    → guard_transition i s old new ≡ ok tt
unfolding guard_transition legal_transition
queued-accepted i s old new same q l a h = ground arith

pub running-accepted :
    (i : Instant) (s : Settings) (old new : JobRecord)
    → same_identity old new ≡ true
    → old.status ≡ running
    → legal_transition running new.status ≡ true
    → old.attempts ≤ new.attempts
    → guard_running i s old new ≡ ok tt
    → guard_transition i s old new ≡ ok tt
unfolding guard_transition legal_transition
running-accepted i s old new same q l a h = ground arith

claimed_row-guard :
    (i : Instant) (claim : Claim) (row : JobRecord)
    → row.status ≡ queued
    → 1 ≤ claim.lease_seconds
    → guard_transition i no_settings row (claimed_row i claim row) ≡ ok tt
unfolding guard_claim claimed_row legal_transition
claimed_row-guard i claim row q l =
    queued-accepted i no_settings row (claimed_row i claim row) (claimed_row-identity i claim row) q
      refl (omega arith) (ground arith)

claimed_row-checks :
    (i : Instant) (claim : Claim) (row : JobRecord)
    → row.status ≡ queued
    → row.attempts < row.max_attempts
    → length_between 1 100 (some claim.worker_id) ≡ true
    → row_checks row ≡ true
    → row_checks (stamped_at i (claimed_row i claim row)) ≡ true
unfolding row_checks lock_consistent finished_consistent texts_in_range claimed_row
claimed_row-checks i claim row q a w c = ground arith

-- The claim: the row goes to `running` with one more attempt.
pub claim_accepted :
    (locked : ℕ → Bool) (organization : ℕ) (i : Instant) (claim : Claim) (row : JobRecord)
    → is_candidate locked organization i claim row ≡ true
    → check_worker_id claim.worker_id ≡ ok tt
    → check_lease_seconds claim.lease_seconds ≡ ok tt
    → row_checks row ≡ true
    → write_row i no_settings row (claimed_row i claim row)
      ≡ ok (stamped_at i (claimed_row i claim row))
unfolding is_candidate check_worker_id check_lease_seconds
claim_accepted locked organization i claim row candidate worker lease checks =
    write_row-ok i no_settings row (claimed_row i claim row)
      (claimed_row-guard i claim row (ground arith) (ground arith))
      (claimed_row-checks i claim row (ground arith) (ground arith) (ground arith) checks)

cancelled_row-checks :
    (i : Instant) (row : JobRecord)
    → row.status ≡ queued
    → ordered row.started_at (some i.clock) ≡ true
    → row_checks row ≡ true
    → row_checks (stamped_at i (cancelled_row i row)) ≡ true
unfolding row_checks lock_consistent finished_consistent texts_in_range cancelled_row
cancelled_row-checks i row q o c = ground arith

-- The database accepts the cancellation of a queued row that passes the constraints and did not start
-- later than now.
pub cancel_accepted :
    (i : Instant) (row : JobRecord)
    → row.status ≡ queued
    → ordered row.started_at (some i.clock) ≡ true
    → row_checks row ≡ true
    → write_row i no_settings row (cancelled_row i row) ≡ ok (stamped_at i (cancelled_row i row))
unfolding cancelled_row guard_claim same_identity legal_transition
cancel_accepted i row q o c =
    write_row-ok i no_settings row (cancelled_row i row)
      (queued-accepted i no_settings row (cancelled_row i row) (same_identity_refl row) q refl
        (omega arith) (ground arith))
      (cancelled_row-checks i row q o c)
