-- ===== src/Jobs/Fencing.antt =====
-- The fencing token `(attempts, locked_by)`: who may publish the fate of an attempt.
use mervio.Json.Stored.{check_jsonb}
use mervio.Tenancy.{run_jobs}
use mervio.Jobs.Lineage.{row_of, some-eq}
use mervio.Jobs.Schedule.{check_lease_seconds, backoff_seconds}
use mervio.Jobs.Payload.{validate_payload}
use mervio.Jobs.Table.{IsValid}
use mervio.Jobs.Steps.Attempt.{end_returned-ok, renew_returned-ok}
use mervio.Error.{ok, >>=-eq-ok, guard, value_error, Result-cases}
use mervio.Json.{Fields}
use mervio.Jobs.Returned.{In, update_rows-Source, row_of-In}
use mervio.Jobs.History.{Operation, renew, succeed, fail, give_back, perform, attempt, only_db-ok}
use mervio.Prelude.{
  List, ℕ, Option, ◌≡◌, String, true, arith, Bool, ◌∷◌, some, leb, Bool-cases, ◌≢◌, ◌*◌, ◌⊎◌, sym,
  inl, inr, ◌∙◌, &&-both, refl,
}
use mervio.Jobs.Guard.{Instant, Settings, update_rows}
use mervio.Jobs.Record.{JobRecord, running}
use mervio.Jobs.Attempt.{
  owns, update_attempt, Publish, attempt_settings, Failure, Requeue, renew_lease, requeue,
  mark_failed, end_attempt, mark_succeeded, retry_later, holder_for, error_code, succeeded_row,
  check_timeout, will_retry, is_renewable, renewed_row, optional_code, requeued_row, optional_error,
  failed_row,
}
use mervio.Database.{Session, Hook, Db, organization_of, open_transaction}

-- The operations that publish something of the attempt that a record describes.
pub data Publishes (job : JobRecord) : Operation → Type 0 where
  renewing :
      (s : Session) (i : Instant) (h : Hook) (w : Option String) (l : ℕ) (t : Option ℕ)
      → Publishes job (renew s i h job w l t)
  succeeding :
      (s : Session) (i : Instant) (h : Hook) (r : Fields) (w : Option String) (n : Option ℕ)
      → Publishes job (succeed s i h job r w n)
  failing :
      (p : Publish) (s : Session) (i : Instant) (h : Hook) (f : Failure)
      → Publishes job (fail p s i h job f)
  giving_back :
      (p : Publish) (s : Session) (i : Instant) (h : Hook) (r : Requeue)
      → Publishes job (give_back p s i h job r)

-- The row of the table that an attempt owns.
pub record Owned (job : JobRecord) (rows : List JobRecord) : Type 0 where
  pub row : JobRecord
  pub member : In row rows
  pub same_job : row.id ≡ job.id
  pub same_attempt : row.attempts ≡ job.attempts
  pub still_running : row.status ≡ running

owns-facts :
    (organization : ℕ) (job : JobRecord) (holder : Option String) (row : JobRecord)
    → owns organization job holder row ≡ true
    → (row.id ≡ job.id) × (row.attempts ≡ job.attempts) × (row.status ≡ running)
unfolding owns
owns-facts organization job holder row h = ground arith

module _ (session : Session) (i : Instant) (hook : Hook) (job : JobRecord) (db : Db) where
  source-Owned :
      (settings : Settings) (test : JobRecord → Bool) (set : JobRecord → JobRecord)
      {after returned rest : List JobRecord} {r : JobRecord}
      → ((row : JobRecord)
          → test row ≡ true
          → (row.id ≡ job.id) × (row.attempts ≡ job.attempts) × (row.status ≡ running))
      → update_rows i settings test set db.jobs ≡ ok (after, returned)
      → returned ≡ r ∷ rest
      → Owned job db.jobs
  source-Owned settings test set facts h e =
      let sources = update_rows-Source i settings test set db.jobs h in
      let source = (rw e at sources).0 in
      let (a, b, c) = facts source.old source.selected in
      record {
        row = source.old;
        member = source.member;
        same_job = a;
        same_attempt = b;
        still_running = c;
      }

  update_attempt-Owned :
      (holder : Option String) (set : JobRecord → JobRecord) {r : JobRecord} {after : Db}
      → update_attempt session i hook job holder set db ≡ ok (r, after)
      → Owned job db.jobs
  unfolding update_attempt
  update_attempt-Owned holder set h =
      let ((rows, returned), wrote, rest) =
        >>=-eq-ok
          (update_rows i (attempt_settings job holder) (owns (organization_of session) job holder)
            set db.jobs)
          _ h in
      let (_, e, _) = end_returned-ok session i hook job holder rows returned db rest in
      source-Owned (attempt_settings job holder) (owns (organization_of session) job holder) set
        (owns-facts (organization_of session) job holder) wrote e

  end_attempt-Owned :
      (holder : Option String) (set : JobRecord → JobRecord) {r : JobRecord} {after : Db}
      → end_attempt session i hook job holder set db ≡ ok (r, after)
      → Owned job db.jobs
  unfolding end_attempt
  end_attempt-Owned holder set h =
      let (_, _, rest) = >>=-eq-ok (open_transaction db session run_jobs) _ h in
      update_attempt-Owned holder set rest

  mark_succeeded-Owned :
      (result : Fields) (worker_id : Option String) (now : Option ℕ) {r : JobRecord} {after : Db}
      → mark_succeeded session i hook job result worker_id now db ≡ ok (r, after)
      → Owned job db.jobs
  unfolding mark_succeeded
  mark_succeeded-Owned result worker_id now h =
      let (document, _, h1) = >>=-eq-ok (validate_payload result) _ h in
      let (_, _, h2) = >>=-eq-ok (open_transaction db session run_jobs) _ h1 in
      let (_, _, rest) = >>=-eq-ok (check_jsonb document) _ h2 in
      update_attempt-Owned (holder_for worker_id job) (succeeded_row i now document) rest

  requeue-Owned :
      (publish : Publish) (args : Requeue) {r : JobRecord} {after : Db}
      → requeue publish session i hook job args db ≡ ok (r, after)
      → Owned job db.jobs
  unfolding requeue
  requeue-Owned publish args h =
      let (_, _, h1) = >>=-eq-ok (guard (leb args.delay_seconds (86400 * 7)) value_error) _ h in
      let (_, _, h2) = >>=-eq-ok (open_transaction db session run_jobs) _ h1 in
      let (_, _, h3) = >>=-eq-ok (check_timeout args.timeout_ms) _ h2 in
      let (code, _, h4) = >>=-eq-ok (optional_code publish args.code) _ h3 in
      update_attempt-Owned (holder_for args.worker_id job)
        (requeued_row i args.now args.delay_seconds code (optional_error publish args.error)) h4

  mark_failed-Owned :
      (publish : Publish) (failure : Failure) {r : JobRecord} {after : Db}
      → mark_failed publish session i hook job failure db ≡ ok (r, after)
      → Owned job db.jobs
  unfolding mark_failed retry_later
  mark_failed-Owned publish failure h =
      let (code, _, rest) = >>=-eq-ok (error_code publish failure.code) _ h in
      elim (Bool-cases (will_retry job failure)) [
        | inl t ↦
            let (_, _, again) =
              >>=-eq-ok (backoff_seconds job.attempts failure.backoff_base failure.backoff_cap) _
                (rw t at rest) in
            requeue-Owned publish _ again
        | inr f ↦
            end_attempt-Owned (holder_for failure.worker_id job)
              (failed_row i failure.now code (publish.safe_error failure.error)) (rw f at rest)
      ]

  renew_lease-Owned :
      (worker_id : Option String) (lease_seconds : ℕ) (timeout_ms : Option ℕ) {r : JobRecord}
      {after : Db}
      → renew_lease session i hook job worker_id lease_seconds timeout_ms db ≡ ok (r, after)
      → Owned job db.jobs
  unfolding renew_lease
  renew_lease-Owned worker_id lease_seconds timeout_ms h =
      let (_, _, h1) = >>=-eq-ok (check_lease_seconds lease_seconds) _ h in
      let (_, _, h2) = >>=-eq-ok (open_transaction db session run_jobs) _ h1 in
      let (_, _, h3) = >>=-eq-ok (check_timeout timeout_ms) _ h2 in
      let holder = holder_for worker_id job in
      let test = is_renewable (organization_of session) i job holder in
      let ((rows, returned), wrote, rest) =
        >>=-eq-ok
          (update_rows i (attempt_settings job holder) test (renewed_row i lease_seconds) db.jobs) _
          h3 in
      let (_, e, _) = renew_returned-ok session i hook job rows returned db rest in
      source-Owned (attempt_settings job holder) test (renewed_row i lease_seconds)
        (λ row t. owns-facts (organization_of session) job holder row (&&-both _ _ t).0) wrote e

perform-Owned :
    {job : JobRecord} {op : Operation} (publishes : Publishes job op) (db : Db) {after : Db}
    → perform op db ≡ ok after
    → Owned job db.jobs
unfolding perform
perform-Owned {job} (renewing s i k w l t) db h =
    renew_lease-Owned s i k job db w l t (only_db-ok (renew_lease s i k job w l t db) h).1
perform-Owned {job} (succeeding s i k r w n) db h =
    mark_succeeded-Owned s i k job db r w n (only_db-ok (mark_succeeded s i k job r w n db) h).1
perform-Owned {job} (failing p s i k f) db h =
    mark_failed-Owned s i k job db p f (only_db-ok (mark_failed p s i k job f db) h).1
perform-Owned {job} (giving_back p s i k r) db h =
    requeue-Owned s i k job db p r (only_db-ok (requeue p s i k job r db) h).1

-- The row that an attempt owns is the one that the table has under the job's identifier.
Owned-current :
    (job row : JobRecord) (rows : List JobRecord)
    → IsValid rows
    → row_of job.id rows ≡ some row
    → Owned job rows
    → (row.attempts ≡ job.attempts) × (row.status ≡ running)
Owned-current job row rows v found o =
    let e : o.row ≡ row =
      some-eq (sym (row_of-In o.row rows v.unique o.member) ∙ (rw o.same_job found)) in
    (rw (← e) o.same_attempt, rw (← e) o.still_running)

-- When a valid table has a row of the job that is at another attempt, or no longer running, nothing that
-- the old attempt publishes changes the database: no renewal, no success, no failure and no return to
-- the queue.
pub stale_attempt_fenced :
    {job : JobRecord} {op : Operation} (publishes : Publishes job op) (db : Db) (row : JobRecord)
    → IsValid db.jobs
    → row_of job.id db.jobs ≡ some row
    → (row.attempts ≢ job.attempts) ⊎ (row.status ≢ running)
    → attempt op db ≡ db
unfolding attempt
stale_attempt_fenced {job} {op} publishes db row v found stale =
    elim (Result-cases (perform op db)) [
      | inl p ↦
          let (a, r) = Owned-current job row db.jobs v found (perform-Owned publishes db p.1) in
          absurd (elim stale [ inl ne ↦ ne a | inr ne ↦ ne r ])
      | inr p ↦ rw (p.1, attempt) refl
    ]
