-- ===== src/Jobs/Failing.antt =====
-- The holder of an attempt publishes its failure (`mark_failed` of persistence/jobs.py).
use mervio.Jobs.Publishing.{
  Ready, committed, Published, row-id, owning-found, end_attempt-published,
  update_attempt-published,
}
use mervio.Jobs.Record.{queued}
use mervio.Prelude.{none, str_eq, if◌then◌else◌, ◌+◌, ◌*◌}
use mervio.Jobs.Schedule.{backoff_seconds}
use mervio.Json.Dump.{str_len}
use mervio.Jobs.Total.{rewritten}
use mervio.Jobs.Agreement.{stamped_at}
use mervio.Jobs.Agreement.Ending.{non_empty_text, fail_accepted, requeue_accepted}
use mervio.Error.{ok}
use mervio.Jobs.Queue.{coalesce}
use mervio.Jobs.Record.{JobRecord}
use mervio.Prelude.{
  ℕ, List, String, ◌≡◌, true, some, arith, refl, ap, ◌∙◌, ◌≤◌, sym, false, &&-both, le→leb,
}
use mervio.Jobs.Guard.{Instant, length_between, ordered}
use mervio.Jobs.Attempt.{
  owns, error_code, Publish, optional_code, mark_failed, Failure, holder_for, retry_later,
  optional_error, requeued_row, requeue, will_retry, check_timeout, failed_row,
}
use mervio.Database.{Session, Db, Hook, AuditEvent, organization_of}

-- What `str.strip` and `_safe_error` promise of their texts.
pub record PublishLaws (publish : Publish) : Type 0 where
  pub strip_idem : (s : String) → publish.strip (publish.strip s) ≡ publish.strip s
  pub safe_length : (s : String) → str_len (publish.safe_error s) ≤ 2000

error_code-ok :
    (publish : Publish) (s : String) {code : String}
    → error_code publish s ≡ ok code
    → (code ≡ publish.strip s) × (length_between 1 100 (some code) ≡ true)
unfolding error_code
error_code-ok publish s h = ground arith

-- A stripped code is not empty, and stripping it again gives it back.
optional_code-again :
    (publish : Publish) (laws : PublishLaws publish) (s : String) {code : String}
    → error_code publish s ≡ ok code
    → optional_code publish (some code) ≡ ok (some code)
unfolding optional_code error_code
optional_code-again publish laws s {code} h =
    let (e, long) = error_code-ok publish s h in
    let again : publish.strip code ≡ code = ap publish.strip e ∙ laws.strip_idem s ∙ sym e in
    rw (non_empty_text code (&&-both _ _ long).0, again, long) refl

safe_error-fits :
    (publish : Publish) (laws : PublishLaws publish) (s : String)
    → length_between 0 2000 (optional_error publish s) ≡ true
safe_error-fits publish laws s = ground (arith, laws.safe_length s)

module _ (publish : Publish) (laws : PublishLaws publish) (session : Session) (i : Instant)
    (hook : Hook) (job : JobRecord) (holder : String) (row : JobRecord) (db : Db)
    (r : Ready session job holder row db) where
  -- When the session may run jobs, a valid table has the row of the job, and the holder holds it, running
  -- at that attempt: a failure that is not to be retried, with a code that can be stored, an end not before
  -- the row's start, and a hook that does not raise, ends the job: it fails, with the code and the
  -- message as published, and its lock is released.
  pub mark_failed_total :
      (failure : Failure) (code : String) {trail : List AuditEvent}
      → holder_for failure.worker_id job ≡ some holder
      → error_code publish failure.code ≡ ok code
      → will_retry job failure ≡ false
      → ordered row.started_at (some (coalesce failure.now i.now)) ≡ true
      → hook
          (stamped_at i (failed_row i failure.now code (publish.safe_error failure.error) row))
          db.audit
        ≡ ok trail
      → mark_failed publish session i hook job failure db
        ≡ ok (
          stamped_at i (failed_row i failure.now code (publish.safe_error failure.error) row),
          committed db
              (rewritten i
                (owns (organization_of session) job (some holder))
                (failed_row i failure.now code (publish.safe_error failure.error))
                db.jobs)
              trail,
        )
  unfolding mark_failed
  mark_failed_total failure code w c retry o h =
      rw (c, retry, w)
        (end_attempt-published session i hook job holder row db r
          (failed_row i failure.now code (publish.safe_error failure.error))
          (fail_accepted i job holder row r.held failure.now code (publish.safe_error failure.error)
            (error_code-ok publish failure.code c).1
            (ground (arith, laws.safe_length failure.error)) o)
          h)

  -- What a retry writes: back to the queue, available after the delay.
  abbrev pub retried : Failure → String → ℕ → JobRecord → JobRecord
  retried failure code delay =
      requeued_row i failure.now delay (some code)
        (optional_error publish (publish.safe_error failure.error))

  -- A row that went back to the queue after a failure.
  pub record Requeued (failure : Failure) (code : String) (delay : ℕ) (new : JobRecord)
      : Type 0 where
    pub status : new.status ≡ queued
    pub available : new.available_at ≡ coalesce failure.now i.now + delay * 1000000
    pub named : new.last_error_code ≡ some code
    pub message : new.last_error ≡ (
        if str_eq (publish.safe_error failure.error) ""
        then row.last_error
        else some (publish.safe_error (publish.safe_error failure.error)))
    pub counted : new.attempts ≡ row.attempts
    pub unlocked : new.locked_by ≡ none
    pub unleased : new.lease_expires_at ≡ none

  -- When the session may run jobs, a valid table has the row of the job, and the holder holds it, running
  -- at that attempt: a failure that is to be retried, with a code that can be stored, a back-off of at most a
  -- week, and a hook that does not raise, takes the job back to the queue: the row returned, which the
  -- table has afterwards, is available after the back-off from the given time, or now, with the code, the
  -- message as published, its attempts, and no lock and no lease.
  pub mark_failed_retries :
      (failure : Failure) (code : String) (delay : ℕ)
      → holder_for failure.worker_id job ≡ some holder
      → error_code publish failure.code ≡ ok code
      → will_retry job failure ≡ true
      → backoff_seconds job.attempts failure.backoff_base failure.backoff_cap ≡ ok delay
      → delay ≤ 604800
      → ((x : JobRecord) → (trail : List AuditEvent) × (hook x db.audit ≡ ok trail))
      → (new : JobRecord) × (after : Db) × (mark_failed publish session i hook job failure db
          ≡ ok (new, after))
        × Published session i hook job holder row db r new after
        × Requeued failure code delay new
  unfolding mark_failed retry_later requeue check_timeout requeued_row
  mark_failed_retries failure code delay w c retry b d h =
      let set = retried failure code delay in
      let (trail, told) = h (stamped_at i (set row)) in
      (
        stamped_at i (set row),
        committed db (rewritten i (owns (organization_of session) job (some holder)) set db.jobs)
            trail,
        rw
            (
              c,
              retry,
              b,
              le→leb delay 604800 d,
              r.opened,
              optional_code-again publish laws failure.code c,
              w,
            )
            (update_attempt-published session i hook job holder row db r set
              (requeue_accepted i job holder row r.held failure.now delay (some code)
                (optional_error publish (publish.safe_error failure.error))
                (error_code-ok publish failure.code c).1
                (safe_error-fits publish laws (publish.safe_error failure.error)))
              told),
        record {
          stored =
              owning-found session i hook job holder row db r set
                (row-id session i hook job holder row db r);
          told = told;
        },
        record {
          status = refl;
          available = omega arith;
          named = refl;
          message = ground arith;
          counted = refl;
          unlocked = refl;
          unleased = refl;
        },
      )
