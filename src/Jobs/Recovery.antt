-- ===== src/Jobs/Recovery.antt =====
-- Taking back jobs whose lease has run out, and the purge of finished jobs (persistence/jobs.py,
-- with the deletion policy of revision 0004_jobs).
use mervio.Tenancy.{run_jobs, purge_data}
use mervio.Jobs.Schedule.{check_limit, sort_rows}
use mervio.Jobs.Queue.{commit_row, is_row, coalesce}
use mervio.Jobs.Guard.{Instant, update_rows, sql_lt}
use mervio.Jobs.Record.{
  JobRecord, JobStatus, failed, queued, is_terminal_status, status_eq, running,
}
use mervio.Database.{Hook, Session, Db, Tx, open_transaction, organization_of}
use mervio.Error.{Result, ◌>>◌, ◌>>=◌, ok, guard, value_error}
use mervio.Prelude.{
  Option, List, ℕ, if◌then◌else◌, some, Bool, ltb, true, none, ◌∷◌, ◌==◌, false, ◌++◌, ◌||◌, [],
  ◌+◌, ◌&&◌, not, ◌-◌, take, select,
}

abbrev pub time_of : Option ℕ → ℕ
time_of none = 0
time_of (some t) = t

-- ORDER BY lease_expires_at ASC, id ASC
abbrev pub lease_before : JobRecord → JobRecord → Bool
lease_before a b =
    if ltb (time_of a.lease_expires_at) (time_of b.lease_expires_at)
    then true
    else if ltb (time_of b.lease_expires_at) (time_of a.lease_expires_at)
    then false
    else ltb a.id b.id

-- status = 'running' AND lease_expires_at < COALESCE(%s, now())
unfoldable pub is_expired : ℕ → ℕ → JobRecord → Bool
is_expired organization at row =
    row.organization_id == organization
    && (status_eq row.status running && sql_lt row.lease_expires_at (some at))

unfoldable pub recovered_row : Instant → ℕ → JobRecord → JobRecord
recovered_row instant at row = record row {
  status = queued;
  locked_at = none;
  locked_by = none;
  lease_expires_at = none;
  available_at = at;
  last_error_code = some "lease_expired";
  updated_at = instant.clock;
}

unfoldable pub exhausted_row : Instant → ℕ → JobRecord → JobRecord
exhausted_row instant at row = record row {
  status = failed;
  finished_at = some at;
  locked_at = none;
  locked_by = none;
  lease_expires_at = none;
  last_error_code = some "lease_expired";
  last_error = some "bail expire, tentatives epuisees";
  updated_at = instant.clock;
}

unfoldable pub taken_back : Instant → ℕ → JobRecord → JobRecord → JobRecord
taken_back instant at selected row =
    if ltb selected.attempts selected.max_attempts
    then recovered_row instant at row
    else exhausted_row instant at row

abbrev pub Recovered : Type 0
Recovered = Result (List JobRecord × Db)

unfoldable pub recover_returned : Hook → List JobRecord → List JobRecord → Db → Recovered
recover_returned hook rows [] db = ok ([], db)
recover_returned hook rows (row ∷ _) db = do
  (recovered, after) ← commit_row hook rows row db
  ok (recovered ∷ [], after)

unfoldable pub recover_one : ℕ → Instant → Hook → ℕ → JobRecord → Db → Recovered
recover_one organization instant hook at selected db = do
  (rows, returned) ←
      update_rows instant (record { lease_token = none; recovery_at = some at })
        (λ row. is_row organization selected.id row && is_expired organization at row)
        (taken_back instant at selected) db.jobs
  recover_returned hook rows returned db

-- The loop over the expired rows.
unfoldable pub recover_each : ℕ → Instant → Hook → ℕ → List JobRecord → Db → Recovered
recover_each organization instant hook at [] db = ok ([], db)
recover_each organization instant hook at (selected ∷ rest) db = do
  (first, after) ← recover_one organization instant hook at selected db
  (others, last) ← recover_each organization instant hook at rest after
  ok (first ++ others, last)

unfoldable pub recover_stale_jobs :
    (ℕ → Bool) → Session → Instant → Hook → Option ℕ → ℕ → Tx (List JobRecord)
recover_stale_jobs locked session instant hook now limit db = do
  check_limit limit
  open_transaction db session run_jobs
  let at : ℕ = coalesce now instant.now
  recover_each (organization_of session) instant hook at
      (take limit (
        sort_rows lease_before (
          select (λ row. is_expired (organization_of session) at row && not (locked row.id))
            db.jobs)))
      db

-- jobs_purge_terminal_only: a row that the policy hides is not deleted.
abbrev pub one_hour : ℕ
one_hour = 3600000000

unfoldable pub may_delete : Instant → JobRecord → Bool
may_delete instant row =
    is_terminal_status row.status && sql_lt row.finished_at (some (instant.now - one_hour))

abbrev pub finished_before : JobRecord → JobRecord → Bool
finished_before a b =
    if ltb (time_of a.finished_at) (time_of b.finished_at)
    then true
    else if ltb (time_of b.finished_at) (time_of a.finished_at)
    then false
    else ltb a.id b.id

abbrev pub any_status : JobStatus → List JobStatus → Bool
any_status s [] = false
any_status s (t ∷ ts) = status_eq s t || any_status s ts

unfoldable pub all_terminal : List JobStatus → Bool
all_terminal [] = true
all_terminal (s ∷ ss) = is_terminal_status s && all_terminal ss

unfoldable pub is_purgeable : ℕ → ℕ → List JobStatus → JobRecord → Bool
is_purgeable organization before statuses row =
    row.organization_id == organization
    && (any_status row.status statuses && sql_lt row.finished_at (some before))

abbrev pub any_id : ℕ → List JobRecord → Bool
any_id id [] = false
any_id id (row ∷ rows) = row.id == id || any_id id rows

-- The rows that stay, and how many went.
unfoldable pub delete_rows : (JobRecord → Bool) → List JobRecord → List JobRecord × ℕ
delete_rows test [] = ([], 0)
delete_rows test (row ∷ rows) =
    let (kept, deleted) = delete_rows test rows in
    if test row then (kept, deleted + 1) else (row ∷ kept, deleted)

abbrev pub is_empty {ℓ} : {A : Type ℓ} → List A → Bool
is_empty [] = true
is_empty (x ∷ xs) = false

unfoldable pub purge_terminal_jobs : Session → Instant → ℕ → List JobStatus → ℕ → Tx ℕ
purge_terminal_jobs session instant before statuses limit db = do
  guard (not (is_empty statuses) && all_terminal statuses) value_error
  open_transaction db session purge_data
  check_limit limit
  let chosen : List JobRecord = take limit (
      sort_rows finished_before
        (select (is_purgeable (organization_of session) before statuses) db.jobs))
  let (kept, deleted) =
      delete_rows
        (λ row.
          row.organization_id == organization_of session
          && (any_id row.id chosen && may_delete instant row))
        db.jobs
  ok (deleted, record db { jobs = kept })
