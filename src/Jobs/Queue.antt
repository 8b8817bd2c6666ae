-- ===== src/Jobs/Queue.antt =====
-- Putting a job in the queue, claiming it, cancelling it (persistence/jobs.py).
use mervio.Jobs.Schedule.{check_lease_seconds, pick_first, comes_before}
use mervio.Jobs.Payload.{validate_payload}
use mervio.Json.Dump.{str_len}
use mervio.Json.Stored.{check_jsonb}
use mervio.Json.{Fields}
use mervio.Tenancy.{Permission, import_data, run_analysis, run_jobs, purge_data}
use mervio.Jobs.Guard.{Instant, Settings, guard_insert, seconds, update_rows, row_checks, is_some}
use mervio.Prelude.{
  String, ℕ, Option, List, some, Bool, none, false, leb, ◌∷◌, ◌==◌, ◌+◌, ◌&&◌, [], not,
  if◌then◌else◌, str_eq, ◌||◌, ltb, opt_eq,
}
use mervio.Error.{
  Result, ok, guard, ◌>>◌, ◌>>=◌, err, not_found, job_state_error, value_error, database,
  check_violation, unique_violation,
}
use mervio.Database.{Session, Db, Hook, Tx, organization_of, fetch_store, open_transaction, user_of}
use mervio.Jobs.Record.{
  JobType, JobRecord, cancelled, running, ℤ, queued, status_eq, type_eq, priority_in_range, import_,
  analysis, purge,
}

-- ENQUEUE_PERMISSION
unfoldable pub enqueue_permission : JobType → Permission
enqueue_permission import_ = import_data
enqueue_permission analysis = run_analysis
enqueue_permission purge = purge_data

-- The arguments of `enqueue_job`, and the two identifiers that `uuid4` draws for it.
pub record Request : Type 0 where
  pub job_type : JobType
  pub payload : Fields
  pub store_id : Option ℕ
  pub priority : ℤ
  pub max_attempts : ℕ
  pub idempotency_key : Option String
  pub available_at : Option ℕ
  pub correlation_id : Option ℕ
  pub fresh_id : ℕ
  pub fresh_correlation : ℕ

abbrev pub coalesce {ℓ} : {A : Type ℓ} → Option A → A → A
coalesce (some a) d = a
coalesce none d = d

-- The row that the INSERT proposes.
unfoldable pub new_job : Session → Instant → Request → JobRecord
new_job session instant request = record {
  id = request.fresh_id;
  organization_id = organization_of session;
  store_id = request.store_id;
  job_type = request.job_type;
  status = queued;
  priority = request.priority;
  attempts = 0;
  max_attempts = request.max_attempts;
  idempotency_key = request.idempotency_key;
  correlation_id = coalesce request.correlation_id request.fresh_correlation;
  enqueued_by = some (user_of session);
  available_at = coalesce request.available_at instant.now;
  locked_at = none;
  locked_by = none;
  lease_expires_at = none;
  started_at = none;
  finished_at = none;
  last_error_code = none;
  last_error = none;
  payload = request.payload;
  result = none;
  created_at = instant.now;
  updated_at = instant.now;
}

-- WHERE organization_id = %s AND job_type = %s AND idempotency_key = %s
unfoldable pub same_key : JobRecord → JobRecord → Bool
same_key new row =
    row.organization_id == new.organization_id
    && (type_eq row.job_type new.job_type
        && (is_some new.idempotency_key && opt_eq str_eq row.idempotency_key new.idempotency_key))

unfoldable pub find_row : (JobRecord → Bool) → List JobRecord → Option JobRecord
find_row test [] = none
find_row test (row ∷ rows) = if test row then some row else find_row test rows

abbrev pub has_id : ℕ → JobRecord → Bool
has_id id row = row.id == id

-- A store given by the caller must be one of the organization.
unfoldable pub check_store : Db → Session → Option ℕ → Result (Unit {0})
check_store db session none = ok tt
check_store db session (some store) = fetch_store db session store

-- The INSERT of a row whose key is not taken.
unfoldable pub insert_job : Hook → JobRecord → Tx JobRecord
insert_job hook new db = do
  guard (not (is_some (find_row (has_id new.id) db.jobs))) (database unique_violation)
  trail ← hook new db.audit
  ok (new, record db { jobs = new ∷ db.jobs; audit = trail })

-- INSERT … ON CONFLICT DO NOTHING, and the SELECT of the row that holds the key.
unfoldable pub insert_or_replay : Hook → JobRecord → Tx JobRecord
insert_or_replay hook new db = do
  guard_insert new
  guard (row_checks new) (database check_violation)
  elim (find_row (same_key new) db.jobs) [
    | some existing ↦ ok (existing, db)
    | none ↦ insert_job hook new db
  ]

unfoldable pub enqueue_job : Session → Instant → Hook → Request → Tx JobRecord
enqueue_job session instant hook request db = do
  document ← validate_payload request.payload
  guard (priority_in_range request.priority) value_error
  guard (leb 1 request.max_attempts && leb request.max_attempts 20) value_error
  open_transaction db session (enqueue_permission request.job_type)
  check_store db session request.store_id
  check_jsonb document
  insert_or_replay hook (new_job session instant (record request { payload = document })) db

-- The arguments of `claim_next_job`.
pub record Claim : Type 0 where
  pub worker_id : String
  pub job_types : List JobType
  pub lease_seconds : ℕ
  pub now : Option ℕ
  pub job_id : Option ℕ

abbrev pub any_type : JobType → List JobType → Bool
any_type t [] = false
any_type t (u ∷ us) = type_eq t u || any_type t us

-- The WHERE of the candidate in `_CLAIM_SQL`; a row that another transaction has locked is skipped.
unfoldable pub is_candidate : (ℕ → Bool) → ℕ → Instant → Claim → JobRecord → Bool
is_candidate locked organization instant claim row =
    row.organization_id == organization
    && (status_eq row.status queued
        && (leb row.available_at (coalesce claim.now instant.now)
            && (any_type row.job_type claim.job_types
                && (ltb row.attempts row.max_attempts
                    && ((not (is_some claim.job_id) || opt_eq ◌==◌ claim.job_id (some row.id))
                        && not (locked row.id))))))

-- The SET of `_CLAIM_SQL`.
unfoldable pub claimed_row : Instant → Claim → JobRecord → JobRecord
claimed_row instant claim row =
    let at : ℕ = coalesce claim.now instant.now in
    record row {
      status = running;
      attempts = row.attempts + 1;
      locked_at = some at;
      locked_by = some claim.worker_id;
      lease_expires_at = some (at + seconds claim.lease_seconds);
      started_at = some at;
      updated_at = instant.clock;
    }

abbrev pub no_settings : Settings
no_settings = record { lease_token = none; recovery_at = none }

-- A `jobs.id = … AND jobs.organization_id = …` of one row.
abbrev pub is_row : ℕ → ℕ → JobRecord → Bool
is_row organization id row = row.id == id && row.organization_id == organization

-- `RETURNING` and `fetchone`: the row goes to the hook, and both are committed together.
unfoldable pub commit_row : Hook → List JobRecord → JobRecord → Tx JobRecord
commit_row hook rows row db = do
  trail ← hook row db.audit
  ok (row, record db { jobs = rows; audit = trail })

abbrev pub Claimed : Type 0
Claimed = Result (Option JobRecord × Db)

unfoldable pub claim_returned : Hook → List JobRecord → List JobRecord → Db → Claimed
claim_returned hook rows [] db = ok (none, db)
claim_returned hook rows (row ∷ _) db = do
  (claimed, after) ← commit_row hook rows row db
  ok (some claimed, after)

-- The UPDATE of the candidate, in the statement that selected it.
unfoldable pub claim_candidate : ℕ → Instant → Hook → Claim → Option JobRecord → Db → Claimed
claim_candidate organization instant hook claim none db = ok (none, db)
claim_candidate organization instant hook claim (some candidate) db = do
  (rows, returned) ←
      update_rows instant no_settings (is_row organization candidate.id) (claimed_row instant claim)
        db.jobs
  claim_returned hook rows returned db

unfoldable pub check_worker_id : String → Result (Unit {0})
check_worker_id worker_id =
    guard (leb 1 (str_len worker_id) && leb (str_len worker_id) 100) value_error

unfoldable pub claim_next_job :
    (ℕ → Bool) → Session → Instant → Hook → Claim → Tx (Option JobRecord)
claim_next_job locked session instant hook claim db = do
  check_worker_id claim.worker_id
  check_lease_seconds claim.lease_seconds
  open_transaction db session run_jobs
  claim_candidate (organization_of session) instant hook claim
      (pick_first comes_before (is_candidate locked (organization_of session) instant claim)
        db.jobs)
      db

-- fetch_job
unfoldable pub fetch_job : Session → ℕ → Db → Result JobRecord
fetch_job session id db = elim (find_row (is_row (organization_of session) id) db.jobs) [
  | none ↦ err (not_found "job")
  | some row ↦ ok row
]

unfoldable pub cancelled_row : Instant → JobRecord → JobRecord
cancelled_row instant row = record row {
  status = cancelled;
  finished_at = some instant.clock;
  updated_at = instant.clock;
}

abbrev pub is_queued_row : ℕ → ℕ → JobRecord → Bool
is_queued_row organization id row = is_row organization id row && status_eq row.status queued

unfoldable pub cancel_returned : Session → Hook → ℕ → List JobRecord → List JobRecord → Tx JobRecord
cancel_returned session hook id rows [] db = do
  current ← fetch_job session id db
  err job_state_error
cancel_returned session hook id rows (row ∷ _) db = commit_row hook rows row db

unfoldable pub cancel_job : Session → Instant → Hook → ℕ → Tx JobRecord
cancel_job session instant hook id db = do
  open_transaction db session run_jobs
  (rows, returned) ←
      update_rows instant no_settings (is_queued_row (organization_of session) id)
        (cancelled_row instant) db.jobs
  cancel_returned session hook id rows returned db
