-- ===== src/Jobs/Attempt.antt =====
-- Renewing the lease of an attempt and publishing its fate (persistence/jobs.py).
use mervio.Jobs.Token.{lease_token}
use mervio.Json.Dump.{str_len}
use mervio.Tenancy.{run_jobs}
use mervio.Jobs.Payload.{validate_payload}
use mervio.Jobs.Schedule.{backoff_seconds, check_lease_seconds}
use mervio.Jobs.Queue.{is_row, coalesce, fetch_job, commit_row}
use mervio.Json.Stored.{check_jsonb}
use mervio.Json.{Fields}
use mervio.Error.{Result, ◌>>=◌, ok, ◌>>◌, guard, err, value_error, job_lease_lost, job_state_error}
use mervio.Database.{Session, Db, Hook, Tx, open_transaction, organization_of}
use mervio.Jobs.Guard.{Instant, Settings, greatest, sql_lt, seconds, update_rows}
use mervio.Prelude.{
  Option, ℕ, String, Bool, if◌then◌else◌, List, some, false, str_eq, ◌&&◌, none, ◌+◌, ◌∷◌, opt_eq,
  ltb, not, leb, ◌*◌, ◌||◌, [], ◌==◌,
}
use mervio.Jobs.Record.{JobRecord, failed, queued, succeeded, status_eq, running}

-- `holder = worker_id if worker_id is not None else job.locked_by`
abbrev pub holder_for : Option String → JobRecord → Option String
holder_for (some worker_id) job = some worker_id
holder_for none job = job.locked_by

-- `_declare_lease_holder`: an absent or empty holder declares the empty token, which is NULL.
unfoldable pub declared_token : JobRecord → Option String → Option (List ℕ)
declared_token job none = none
declared_token job (some holder) =
    if str_eq holder "" then none else some (lease_token job.attempts holder)

abbrev pub attempt_settings : JobRecord → Option String → Settings
attempt_settings job holder = record { lease_token = declared_token job holder; recovery_at = none }

-- `locked_by = %s`, where NULL matches nothing.
abbrev pub holds : Option String → JobRecord → Bool
holds none row = false
holds (some holder) row = opt_eq str_eq row.locked_by (some holder)

-- WHERE organization_id AND id AND status = 'running' AND locked_by AND attempts
unfoldable pub owns : ℕ → JobRecord → Option String → JobRecord → Bool
owns organization job holder row =
    is_row organization job.id row
    && (status_eq row.status running && (holds holder row && row.attempts == job.attempts))

-- `_explain_lost_transition`
unfoldable pub explain_lost : Session → JobRecord → Option String → Db → Result JobRecord
explain_lost session job holder db = do
  current ← fetch_job session job.id db
  if not (status_eq current.status running)
        || (not (opt_eq str_eq current.locked_by holder) || not (current.attempts == job.attempts))
      then err job_lease_lost
      else err job_state_error

unfoldable pub end_returned :
    Session → Hook → JobRecord → Option String → List JobRecord → List JobRecord → Tx JobRecord
end_returned session hook job holder rows [] db = do
  row ← explain_lost session job holder db
  ok (row, db)
end_returned session hook job holder rows (row ∷ _) db = commit_row hook rows row db

-- What `mark_succeeded`, `mark_failed` and `requeue` share behind the checks of the transaction:
-- declare the token, UPDATE the row of the attempt, explain a miss, call the hook.
unfoldable pub update_attempt :
    Session → Instant → Hook → JobRecord → Option String → (JobRecord → JobRecord) → Tx JobRecord
update_attempt session instant hook job holder set db = do
  (rows, returned) ←
      update_rows instant (attempt_settings job holder) (owns (organization_of session) job holder)
        set db.jobs
  end_returned session hook job holder rows returned db

unfoldable pub end_attempt :
    Session → Instant → Hook → JobRecord → Option String → (JobRecord → JobRecord) → Tx JobRecord
end_attempt session instant hook job holder set db = do
  open_transaction db session run_jobs
  update_attempt session instant hook job holder set db

unfoldable pub succeeded_row : Instant → Option ℕ → Fields → JobRecord → JobRecord
succeeded_row instant now result row = record row {
  status = succeeded;
  finished_at = some (coalesce now instant.now);
  result = some result;
  locked_at = none;
  locked_by = none;
  lease_expires_at = none;
  last_error_code = none;
  last_error = none;
  updated_at = instant.clock;
}

unfoldable pub mark_succeeded :
    Session → Instant → Hook → JobRecord → Fields → Option String → Option ℕ → Tx JobRecord
mark_succeeded session instant hook job result worker_id now db = do
  document ← validate_payload result
  open_transaction db session run_jobs
  check_jsonb document
  update_attempt session instant hook job (holder_for worker_id job)
      (succeeded_row instant now document) db

unfoldable pub requeued_row :
    Instant → Option ℕ → ℕ → Option String → Option String → JobRecord → JobRecord
requeued_row instant now delay_seconds code error row = record row {
  status = queued;
  locked_at = none;
  locked_by = none;
  lease_expires_at = none;
  available_at = coalesce now instant.now + seconds delay_seconds;
  last_error_code = elim code [ none ↦ row.last_error_code | some c ↦ some c ];
  last_error = elim error [ none ↦ row.last_error | some e ↦ some e ];
  updated_at = instant.clock;
}

unfoldable pub failed_row : Instant → Option ℕ → String → String → JobRecord → JobRecord
failed_row instant now code message row = record row {
  status = failed;
  finished_at = some (coalesce now instant.now);
  locked_at = none;
  locked_by = none;
  lease_expires_at = none;
  last_error_code = some code;
  last_error = some message;
  updated_at = instant.clock;
}

-- What `_error_code` and `_safe_error` make of a text. They strip and redact it by `str.split` and by
-- the patterns of observability/redaction.py, so they are parameters here.
pub record Publish : Type 0 where
  pub strip : String → String
  pub safe_error : String → String

-- `_error_code`
unfoldable pub error_code : Publish → String → Result String
error_code publish code = do
  let text : String = publish.strip code
  guard (leb 1 (str_len text) && leb (str_len text) 100) value_error
  ok text

-- `x if error else None`, where the empty text is false.
abbrev pub non_empty : String → Option String
non_empty s = if str_eq s "" then none else some s

-- `_error_code(error_code) if error_code else None`
unfoldable pub optional_code : Publish → Option String → Result (Option String)
optional_code publish none = ok none
optional_code publish (some code) =
    if str_eq code "" then ok none else (do c ← error_code publish code; ok (some c))

-- `_safe_error(error) if error else None`
abbrev pub optional_error : Publish → String → Option String
optional_error publish error = if str_eq error "" then none else some (publish.safe_error error)

-- `_limit_statement_time`
unfoldable pub check_timeout : Option ℕ → Result (Unit {0})
check_timeout none = ok tt
check_timeout (some ms) = guard (leb 1 ms && leb ms 3600000) value_error

-- The arguments of `requeue`.
pub record Requeue : Type 0 where
  pub delay_seconds : ℕ
  pub code : Option String
  pub error : String
  pub worker_id : Option String
  pub now : Option ℕ
  pub timeout_ms : Option ℕ

unfoldable pub requeue : Publish → Session → Instant → Hook → JobRecord → Requeue → Tx JobRecord
requeue publish session instant hook job args db = do
  guard (leb args.delay_seconds (86400 * 7)) value_error
  open_transaction db session run_jobs
  check_timeout args.timeout_ms
  code ← optional_code publish args.code
  update_attempt session instant hook job (holder_for args.worker_id job)
      (requeued_row instant args.now args.delay_seconds code (optional_error publish args.error)) db

-- The arguments of `mark_failed`.
pub record Failure : Type 0 where
  pub code : String
  pub error : String
  pub retryable : Bool
  pub worker_id : Option String
  pub now : Option ℕ
  pub backoff_base : ℕ
  pub backoff_cap : ℕ

-- `bool(retryable) and job.attempts < job.max_attempts`
unfoldable pub will_retry : JobRecord → Failure → Bool
will_retry job failure = failure.retryable && ltb job.attempts job.max_attempts

unfoldable pub retry_later :
    Publish → Session → Instant → Hook → JobRecord → Failure → String → Tx JobRecord
retry_later publish session instant hook job failure code db = do
  delay ← backoff_seconds job.attempts failure.backoff_base failure.backoff_cap
  requeue publish session instant hook job
      (record {
        delay_seconds = delay;
        code = some code;
        error = publish.safe_error failure.error;
        worker_id = failure.worker_id;
        now = failure.now;
        timeout_ms = none;
      })
      db

unfoldable pub mark_failed : Publish → Session → Instant → Hook → JobRecord → Failure → Tx JobRecord
mark_failed publish session instant hook job failure db = do
  code ← error_code publish failure.code
  if will_retry job failure
      then retry_later publish session instant hook job failure code db
      else end_attempt session instant hook job (holder_for failure.worker_id job)
          (failed_row instant failure.now code (publish.safe_error failure.error)) db

unfoldable pub renewed_row : Instant → ℕ → JobRecord → JobRecord
renewed_row instant lease_seconds row = record row {
  lease_expires_at = some (greatest row.lease_expires_at (instant.now + seconds lease_seconds));
  updated_at = instant.clock;
}

abbrev pub is_renewable : ℕ → Instant → JobRecord → Option String → JobRecord → Bool
is_renewable organization instant job holder row =
    owns organization job holder row && sql_lt (some instant.clock) row.lease_expires_at

unfoldable pub renew_returned :
    Session → Hook → JobRecord → List JobRecord → List JobRecord → Tx JobRecord
renew_returned session hook job rows [] db = do
  current ← fetch_job session job.id db
  err job_lease_lost
renew_returned session hook job rows (row ∷ _) db = commit_row hook rows row db

unfoldable pub renew_lease :
    Session → Instant → Hook → JobRecord → Option String → ℕ → Option ℕ → Tx JobRecord
renew_lease session instant hook job worker_id lease_seconds timeout_ms db = do
  check_lease_seconds lease_seconds
  open_transaction db session run_jobs
  check_timeout timeout_ms
  (rows, returned) ←
      update_rows instant (attempt_settings job (holder_for worker_id job))
        (is_renewable (organization_of session) instant job (holder_for worker_id job))
        (renewed_row instant lease_seconds) db.jobs
  renew_returned session hook job rows returned db
