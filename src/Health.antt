-- ===== src/Health.antt =====
-- The health file of the worker (observability/health.py): the states, the document and the verdict.
-- Instants are whole microseconds.
pub mod Reporter
pub mod Reading
pub mod Outage
pub mod Judged
pub mod Published
mod Tests
use mervio.Jobs.Queue.{coalesce}
use mervio.Jobs.Guard.{seconds}
use mervio.Prelude.{ℕ, String, Bool, Option, if◌then◌else◌, false, true, ltb, some, ◌+◌}

pub data WorkerState : Type 0 where
  starting ready busy draining degraded stopped forced : WorkerState

-- `HealthSnapshot`, whose `state` is one of the texts of `WorkerState`.
pub record HealthSnapshot : Type 0 where
  pub version : ℕ
  pub state : WorkerState
  pub updated_at : ℕ
  pub started_at : ℕ
  pub pid : ℕ
  pub worker_id : String
  pub jobs_processed : ℕ
  pub last_database_ok_at : Option ℕ
  pub degraded_since : Option ℕ

abbrev pub health_schema_version : ℕ
health_schema_version = 1

abbrev pub clock_skew : ℕ
clock_skew = seconds 5

abbrev pub state_value : WorkerState → String
state_value starting = "starting"
state_value ready = "ready"
state_value busy = "busy"
state_value draining = "draining"
state_value degraded = "degraded"
state_value stopped = "stopped"
state_value forced = "forced"

-- `HealthVerdict`
pub record HealthVerdict : Type 0 where
  pub live : Bool
  pub is_ready : Bool
  pub reason : String
  pub state : Option String

abbrev pub dead : String → WorkerState → HealthVerdict
dead reason s = record {
  live = false;
  is_ready = false;
  reason = reason;
  state = some (state_value s);
}

abbrev pub waiting : String → WorkerState → HealthVerdict
waiting reason s = record {
  live = true;
  is_ready = false;
  reason = reason;
  state = some (state_value s);
}

-- The end of `evaluate`, by the state of a recent document.
unfoldable pub by_state : HealthSnapshot → ℕ → ℕ → WorkerState → HealthVerdict
by_state s now grace stopped = dead "stopped" stopped
by_state s now grace forced = dead "forced" forced
by_state s now grace degraded =
    if ltb (coalesce s.degraded_since s.updated_at + grace) now
    then dead "database_unavailable" degraded
    else waiting "degraded" degraded
by_state s now grace starting = waiting "starting" starting
by_state s now grace draining = waiting "draining" draining
by_state s now grace ready = record {
  live = true;
  is_ready = true;
  reason = "ok";
  state = some "ready";
}
by_state s now grace busy = record {
  live = true;
  is_ready = true;
  reason = "ok";
  state = some "busy";
}

-- `evaluate`: `age > max_age_seconds` and `age < -CLOCK_SKEW_SECONDS` without a difference.
unfoldable pub evaluate : HealthSnapshot → ℕ → ℕ → ℕ → HealthVerdict
evaluate s now max_age grace =
    if ltb (s.updated_at + max_age) now
    then dead "stale" s.state
    else if ltb (now + clock_skew) s.updated_at
    then dead "clock_skew" s.state
    else by_state s now grace s.state
