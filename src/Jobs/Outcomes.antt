-- ===== src/Jobs/Outcomes.antt =====
-- The status of the row that a publication of persistence/jobs.py returns.
use mervio.Json.Stored.{check_jsonb}
use mervio.Json.{Fields}
use mervio.Tenancy.{run_jobs}
use mervio.Jobs.Payload.{validate_payload}
use mervio.Jobs.Schedule.{backoff_seconds}
use mervio.Jobs.Trigger.{write_row-stamp}
use mervio.Jobs.Returned.{update_rows-Source}
use mervio.Jobs.Steps.Attempt.{end_returned-ok}
use mervio.Jobs.Record.{JobRecord, JobStatus, queued, succeeded, failed}
use mervio.Jobs.Attempt.{
  mark_succeeded, mark_failed, requeue, retry_later, update_attempt, end_attempt, Publish, Failure,
  Requeue, attempt_settings, owns, error_code, optional_code, optional_error, check_timeout,
  holder_for, will_retry, succeeded_row, failed_row, requeued_row,
}
use mervio.Jobs.Guard.{Instant, update_rows}
use mervio.Database.{Session, Db, Hook, organization_of, open_transaction}
use mervio.Error.{ok, >>=-eq-ok, guard, value_error}
use mervio.Prelude.{ℕ, Option, String, ◌≡◌, Bool-cases, inl, inr, ◌⊎◌, refl, ap, ◌∙◌, leb, ◌*◌}

module _ (session : Session) (i : Instant) (hook : Hook) where
  update_attempt-status :
      (job : JobRecord) (holder : Option String) (set : JobRecord → JobRecord) (db : Db)
      (target : JobStatus) {r : JobRecord} {after : Db}
      → ((row : JobRecord) → (set row).status ≡ target)
      → update_attempt session i hook job holder set db ≡ ok (r, after)
      → r.status ≡ target
  unfolding update_attempt
  update_attempt-status job holder set db target writes h =
      let test = owns (organization_of session) job holder in
      let ((rows, returned), wrote, rest) =
        >>=-eq-ok (update_rows i (attempt_settings job holder) test set db.jobs) _ h in
      let (_, e, _) = end_returned-ok session i hook job holder rows returned db rest in
      let source =
        (rw e at (update_rows-Source i (attempt_settings job holder) test set db.jobs wrote)).0 in
      let stamped =
        (write_row-stamp i (attempt_settings job holder) source.old (set source.old)
          source.wrote).2 in
      ap (λ (x : JobRecord). x.status) stamped ∙ writes source.old

  pub mark_succeeded-status :
      (job : JobRecord) (result : Fields) (worker_id : Option String) (now : Option ℕ) (db : Db)
      {r : JobRecord} {after : Db}
      → mark_succeeded session i hook job result worker_id now db ≡ ok (r, after)
      → r.status ≡ succeeded
  unfolding mark_succeeded succeeded_row
  mark_succeeded-status job result worker_id now db h =
      let (document, _, h1) = >>=-eq-ok (validate_payload result) _ h in
      let (_, _, h2) = >>=-eq-ok (open_transaction db session run_jobs) _ h1 in
      let (_, _, rest) = >>=-eq-ok (check_jsonb document) _ h2 in
      update_attempt-status job (holder_for worker_id job) (succeeded_row i now document) db
        succeeded (λ row. refl) rest

  pub requeue-status :
      (publish : Publish) (job : JobRecord) (args : Requeue) (db : Db) {r : JobRecord} {after : Db}
      → requeue publish session i hook job args db ≡ ok (r, after)
      → r.status ≡ queued
  unfolding requeue requeued_row
  requeue-status publish job args db h =
      let (_, _, h1) = >>=-eq-ok (guard (leb args.delay_seconds (86400 * 7)) value_error) _ h in
      let (_, _, h2) = >>=-eq-ok (open_transaction db session run_jobs) _ h1 in
      let (_, _, h3) = >>=-eq-ok (check_timeout args.timeout_ms) _ h2 in
      let (code, _, h4) = >>=-eq-ok (optional_code publish args.code) _ h3 in
      update_attempt-status job (holder_for args.worker_id job)
        (requeued_row i args.now args.delay_seconds code (optional_error publish args.error)) db
        queued (λ row. refl) h4

  pub mark_failed-status :
      (publish : Publish) (job : JobRecord) (failure : Failure) (db : Db) {r : JobRecord}
      {after : Db}
      → mark_failed publish session i hook job failure db ≡ ok (r, after)
      → (r.status ≡ queued) ⊎ (r.status ≡ failed)
  unfolding mark_failed retry_later end_attempt failed_row
  mark_failed-status publish job failure db h =
      let (code, _, rest) = >>=-eq-ok (error_code publish failure.code) _ h in
      elim (Bool-cases (will_retry job failure)) [
        | inl t ↦
            let (_, _, again) =
              >>=-eq-ok (backoff_seconds job.attempts failure.backoff_base failure.backoff_cap) _
                (rw t at rest) in
            inl (requeue-status publish job _ db again)
        | inr f ↦
            let (_, _, final) = >>=-eq-ok (open_transaction db session run_jobs) _ (rw f at rest) in
            inr (
              update_attempt-status job (holder_for failure.worker_id job)
                (failed_row i failure.now code (publish.safe_error failure.error)) db failed
                (λ row. refl) final)
      ]
