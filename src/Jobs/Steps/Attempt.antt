-- ===== src/Jobs/Steps/Attempt.antt =====
-- Renewing and ending an attempt, as changes of the table.
use mervio.Jobs.Machine.{CallKind, permits, by_success, by_failure, by_renewal}
use mervio.Jobs.Record.{JobStatus, queued}
use mervio.Prelude.{refl}
use mervio.Json.Stored.{check_jsonb}
use mervio.Jobs.Steps.{one-update, commit_row-ok}
use mervio.Jobs.Payload.{validate_payload}
use mervio.Json.{Fields}
use mervio.Tenancy.{run_jobs}
use mervio.Jobs.Schedule.{check_lease_seconds, backoff_seconds}
use mervio.Jobs.Table.{Table}
use mervio.Error.{ok, >>=-eq-ok, guard, value_error}
use mervio.Jobs.Record.{JobRecord}
use mervio.Jobs.Guard.{Instant, update_rows}
use mervio.Prelude.{
  ℕ, List, Option, ◌≡◌, true, String, arith, ◌∷◌, inl, inr, [], Bool-cases, leb, ◌*◌, &&-both,
}
use mervio.Jobs.Attempt.{
  owns, update_attempt, attempt_settings, explain_lost, renew_lease, mark_succeeded, end_returned,
  retry_later, end_attempt, requeue, renew_returned, mark_failed, Publish, Failure, Requeue,
  error_code, check_timeout, holder_for, is_renewable, will_retry, renewed_row, failed_row,
  optional_code, requeued_row, optional_error, succeeded_row,
}
use mervio.Jobs.Queue.{fetch_job}
use mervio.Database.{Session, Db, Hook, organization_of, open_transaction}

owns-owner :
    (organization : ℕ) (job : JobRecord) (holder : Option String) (row : JobRecord)
    → owns organization job holder row ≡ true
    → row.organization_id ≡ organization
unfolding owns
owns-owner organization job holder row h = ground arith

owns-running :
    (organization : ℕ) (job : JobRecord) (holder : Option String) (row : JobRecord)
    → owns organization job holder row ≡ true
    → permits by_renewal row.status row.status ≡ true
unfolding owns
owns-running organization job holder row h = ground arith

pub explain_lost-err :
    (session : Session) (job : JobRecord) (holder : Option String) (db : Db) {r : JobRecord}
    → explain_lost session job holder db ≡ ok r
    → ⊥
unfolding explain_lost fetch_job
explain_lost-err session job holder db h = ground arith

module _ (session : Session) (i : Instant) (hook : Hook) where
  pub end_returned-ok :
      (job : JobRecord) (holder : Option String) (rows returned : List JobRecord) (db : Db)
      {r : JobRecord} {after : Db}
      → end_returned session hook job holder rows returned db ≡ ok (r, after)
      → (rest : List JobRecord) × (returned ≡ r ∷ rest) × (after.jobs ≡ rows)
  unfolding end_returned
  end_returned-ok job holder rows [] db h =
      let (row, found, rest) = >>=-eq-ok (explain_lost session job holder db) _ h in
      absurd (explain_lost-err session job holder db found)
  end_returned-ok job holder rows (row ∷ rest) db h =
      let (e, jobs) = commit_row-ok hook rows row db h in (rest, cc e, jobs)

  update_attempt-Table :
      (k : CallKind) (job : JobRecord) (holder : Option String) (set : JobRecord → JobRecord)
      (db : Db) {r : JobRecord} {after : Db}
      → ((row : JobRecord) → permits k row.status (set row).status ≡ true)
      → update_attempt session i hook job holder set db ≡ ok (r, after)
      → Table (organization_of session) k db.jobs after.jobs
  unfolding update_attempt
  update_attempt-Table k job holder set db allowed h =
      let ((rows, returned), wrote, rest) =
        >>=-eq-ok
          (update_rows i (attempt_settings job holder) (owns (organization_of session) job holder)
            set db.jobs)
          _ h in
      let (_, _, jobs) = end_returned-ok job holder rows returned db rest in
      rw jobs (
        one-update (organization_of session) k i (attempt_settings job holder)
          (owns (organization_of session) job holder) set db.jobs
          (owns-owner (organization_of session) job holder) (λ row t. allowed row) wrote)

  end_attempt-Table :
      (k : CallKind) (job : JobRecord) (holder : Option String) (set : JobRecord → JobRecord)
      (db : Db) {r : JobRecord} {after : Db}
      → ((row : JobRecord) → permits k row.status (set row).status ≡ true)
      → end_attempt session i hook job holder set db ≡ ok (r, after)
      → Table (organization_of session) k db.jobs after.jobs
  unfolding end_attempt
  end_attempt-Table k job holder set db allowed h =
      let (_, _, rest) = >>=-eq-ok (open_transaction db session run_jobs) _ h in
      update_attempt-Table k job holder set db allowed rest

  pub mark_succeeded-Table :
      (job : JobRecord) (result : Fields) (worker_id : Option String) (now : Option ℕ) (db : Db)
      {r : JobRecord} {after : Db}
      → mark_succeeded session i hook job result worker_id now db ≡ ok (r, after)
      → Table (organization_of session) by_success db.jobs after.jobs
  unfolding mark_succeeded succeeded_row
  mark_succeeded-Table job result worker_id now db h =
      let (document, _, h1) = >>=-eq-ok (validate_payload result) _ h in
      let (_, _, h2) = >>=-eq-ok (open_transaction db session run_jobs) _ h1 in
      let (_, _, rest) = >>=-eq-ok (check_jsonb document) _ h2 in
      update_attempt-Table by_success job (holder_for worker_id job) (succeeded_row i now document)
        db (λ row. refl) rest

  pub requeue-Table :
      (k : CallKind) (publish : Publish) (job : JobRecord) (args : Requeue) (db : Db)
      {r : JobRecord} {after : Db}
      → ((s : JobStatus) → permits k s queued ≡ true)
      → requeue publish session i hook job args db ≡ ok (r, after)
      → Table (organization_of session) k db.jobs after.jobs
  unfolding requeue requeued_row
  requeue-Table k publish job args db allowed h =
      let (_, _, h1) = >>=-eq-ok (guard (leb args.delay_seconds (86400 * 7)) value_error) _ h in
      let (_, _, h2) = >>=-eq-ok (open_transaction db session run_jobs) _ h1 in
      let (_, _, h3) = >>=-eq-ok (check_timeout args.timeout_ms) _ h2 in
      let (code, _, h4) = >>=-eq-ok (optional_code publish args.code) _ h3 in
      update_attempt-Table k job (holder_for args.worker_id job)
        (requeued_row i args.now args.delay_seconds code (optional_error publish args.error)) db
        (λ row. allowed row.status) h4

  retry_later-Table :
      (publish : Publish) (job : JobRecord) (failure : Failure) (code : String) (db : Db)
      {r : JobRecord} {after : Db}
      → retry_later publish session i hook job failure code db ≡ ok (r, after)
      → Table (organization_of session) by_failure db.jobs after.jobs
  unfolding retry_later
  retry_later-Table publish job failure code db h =
      let (_, _, rest) =
        >>=-eq-ok (backoff_seconds job.attempts failure.backoff_base failure.backoff_cap) _ h in
      requeue-Table by_failure publish job _ db (λ t. refl) rest

  pub mark_failed-Table :
      (publish : Publish) (job : JobRecord) (failure : Failure) (db : Db) {r : JobRecord}
      {after : Db}
      → mark_failed publish session i hook job failure db ≡ ok (r, after)
      → Table (organization_of session) by_failure db.jobs after.jobs
  unfolding mark_failed failed_row
  mark_failed-Table publish job failure db h =
      let (code, _, rest) = >>=-eq-ok (error_code publish failure.code) _ h in
      elim (Bool-cases (will_retry job failure)) [
        | inl t ↦ retry_later-Table publish job failure code db (rw t at rest)
        | inr f ↦
            end_attempt-Table by_failure job (holder_for failure.worker_id job)
              (failed_row i failure.now code (publish.safe_error failure.error)) db (λ row. refl)
              (rw f at rest)
      ]

  pub renew_returned-ok :
      (job : JobRecord) (rows returned : List JobRecord) (db : Db) {r : JobRecord} {after : Db}
      → renew_returned session hook job rows returned db ≡ ok (r, after)
      → (rest : List JobRecord) × (returned ≡ r ∷ rest) × (after.jobs ≡ rows)
  unfolding renew_returned
  renew_returned-ok job rows [] db h =
      let (row, found, rest) = >>=-eq-ok (fetch_job session job.id db) _ h in cc rest
  renew_returned-ok job rows (row ∷ rest) db h =
      let (e, jobs) = commit_row-ok hook rows row db h in (rest, cc e, jobs)

  pub renew_lease-Table :
      (job : JobRecord) (worker_id : Option String) (lease_seconds : ℕ) (timeout_ms : Option ℕ)
      (db : Db) {r : JobRecord} {after : Db}
      → renew_lease session i hook job worker_id lease_seconds timeout_ms db ≡ ok (r, after)
      → Table (organization_of session) by_renewal db.jobs after.jobs
  unfolding renew_lease renewed_row
  renew_lease-Table job worker_id lease_seconds timeout_ms db h =
      let (_, _, h1) = >>=-eq-ok (check_lease_seconds lease_seconds) _ h in
      let (_, _, h2) = >>=-eq-ok (open_transaction db session run_jobs) _ h1 in
      let (_, _, h3) = >>=-eq-ok (check_timeout timeout_ms) _ h2 in
      let holder = holder_for worker_id job in
      let test = is_renewable (organization_of session) i job holder in
      let ((rows, returned), wrote, rest) =
        >>=-eq-ok
          (update_rows i (attempt_settings job holder) test (renewed_row i lease_seconds) db.jobs) _
          h3 in
      let (_, _, jobs) = renew_returned-ok job rows returned db rest in
      rw jobs (
        one-update (organization_of session) by_renewal i (attempt_settings job holder) test
          (renewed_row i lease_seconds) db.jobs
          (λ row t. owns-owner (organization_of session) job holder row (&&-both _ _ t).0)
          (λ row t. owns-running (organization_of session) job holder row (&&-both _ _ t).0) wrote)
