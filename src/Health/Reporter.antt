-- ===== src/Health/Reporter.antt =====
-- `HealthReporter` of observability/health.py: the updates of a worker's health.
use mervio.Prelude.{if◌then◌else◌, [], ◌∷◌, not}
use mervio.Jobs.Queue.{coalesce}
use mervio.Prelude.{◌+◌, Bool, ℕ, List, String, some, Option, none}
use mervio.Health.{WorkerState, degraded, HealthSnapshot, ready, health_schema_version, starting}

-- The reporter: whether it has a file, what the file holds, and the count of failed writes.
pub record HealthReporter : Type 0 where
  pub has_path : Bool
  pub file : Option HealthSnapshot
  pub snapshot : HealthSnapshot
  pub write_failures : ℕ

-- What one update is given: the clock, and whether the write of the file succeeds.
pub record Tick : Type 0 where
  pub now : ℕ
  pub written : Bool

-- `__init__`; the identifier is given cut to its length.
unfoldable pub new_reporter : Bool → String → ℕ → ℕ → HealthReporter
new_reporter has_path worker_id pid started = record {
  has_path = has_path;
  file = none;
  snapshot = record {
    version = health_schema_version;
    state = starting;
    updated_at = started;
    started_at = started;
    pid = pid;
    worker_id = worker_id;
    jobs_processed = 0;
    last_database_ok_at = none;
    degraded_since = none;
  };
  write_failures = 0;
}

-- `_update`: the changes are computed from the current document, and a write that fails is counted and
-- leaves the file as it was.
unfoldable pub update :
    (HealthSnapshot → ℕ → HealthSnapshot) → Tick → HealthReporter → HealthReporter
update changes t r =
    let s : HealthSnapshot = record (changes r.snapshot t.now) { updated_at = t.now } in
    let kept : HealthReporter = record r { snapshot = s } in
    if not r.has_path
    then kept
    else if t.written
    then record kept { file = some s }
    else record kept { write_failures = r.write_failures + 1 }

unfoldable pub beat : Tick → HealthReporter → HealthReporter
beat = update (λ current now. current)

-- The changes of `set_state`: the beginning of an outage is kept while the state is DEGRADED.
unfoldable pub with_state : WorkerState → HealthSnapshot → ℕ → HealthSnapshot
with_state degraded current now = record current {
  state = degraded;
  degraded_since = some (coalesce current.degraded_since now);
}
with_state s current now = record current { state = s; degraded_since = none }

unfoldable pub set_state : WorkerState → Tick → HealthReporter → HealthReporter
set_state s = update (with_state s)

-- The changes of `database_ok`.
unfoldable pub with_database : HealthSnapshot → ℕ → HealthSnapshot
with_database current now =
    let seen : HealthSnapshot = record current { last_database_ok_at = some now } in
    elim current.state [
      | degraded ↦ record seen { state = ready; degraded_since = none }
      | _ ↦ seen
    ]

unfoldable pub database_ok : Tick → HealthReporter → HealthReporter
database_ok = update with_database

unfoldable pub database_unavailable : Tick → HealthReporter → HealthReporter
database_unavailable = set_state degraded

unfoldable pub job_finished : Tick → HealthReporter → HealthReporter
job_finished =
    update (λ current now. record current { jobs_processed = current.jobs_processed + 1 })

-- One call of the reporter.
pub data Report : Type 0 where
  beats : Report
  sets : WorkerState → Report
  database_answers : Report
  database_fails : Report
  job_ends : Report

unfoldable pub report : Report → Tick → HealthReporter → HealthReporter
report beats t r = beat t r
report (sets s) t r = set_state s t r
report database_answers t r = database_ok t r
report database_fails t r = database_unavailable t r
report job_ends t r = job_finished t r

unfoldable pub reports : List (Report × Tick) → HealthReporter → HealthReporter
reports [] r = r
reports ((c, t) ∷ rest) r = reports rest (report c t r)
