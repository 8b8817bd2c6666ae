-- ===== src/Process.antt =====
-- The worker process (workers/runtime.py): its stop requests, its connection, its loop and its exit.
-- Instants and delays are whole microseconds. A call by another thread, a signal's or a timer's, is
-- one step, made between two statements of the main thread.
pub mod Connecting
pub mod Looping
pub mod Running
pub mod Forcing
pub mod Keeping
pub mod Exits
pub mod Patience
pub mod Leaving
mod Tests
use mervio.Worker.Lifecycle.{busy, draining, forced, ready}
use mervio.Worker.Lifecycle.{Lifecycle, ProcessState, new_lifecycle, transition_if_allowed}
use mervio.Prelude.{◌+◌, if◌then◌else◌, ℕ, false, List, Bool, true, ◌∷◌, [], ◌&&◌, ◌==◌}

-- The fields of `WorkerSettings` that the process reads.
pub record WorkerSettings : Type 0 where
  pub startup_timeout : ℕ
  pub poll_interval : ℕ
  pub poll_max : ℕ
  pub recovery_interval : ℕ
  pub shutdown_grace : ℕ
  pub forced_exit_delay : ℕ

abbrev pub exit_ok : ℕ
exit_ok = 0

abbrev pub exit_internal : ℕ
exit_internal = 1

abbrev pub exit_config : ℕ
exit_config = 2

abbrev pub exit_database : ℕ
exit_database = 3

abbrev pub exit_schema : ℕ
exit_schema = 4

abbrev pub exit_forced : ℕ
exit_forced = 5

-- The actions that `_schedule` is given.
pub data Timed : Type 0 where
  grace_expired hard_exit_if_stuck : Timed

-- `WorkerRuntime`, with what it did to the worker and to the process: the calls of `force_release`, the
-- timers with their delays, and the codes given to `forced_exit`, the last one first.
pub record WorkerRuntime : Type 0 where
  pub lifecycle : Lifecycle
  pub stop_set : Bool
  pub forced_set : Bool
  pub force_published : Bool
  pub stop_requests : ℕ
  pub has_worker : Bool
  pub worker_busy : Bool
  pub releases : ℕ
  pub timers : List (ℕ × Timed)
  pub forced_exits : List ℕ
  pub jobs_processed : ℕ
  pub polls : ℕ
  pub idle_waits : List ℕ
  pub failure_waits : List ℕ

-- `__init__`
unfoldable pub new_runtime : WorkerRuntime
new_runtime = record {
  lifecycle = new_lifecycle;
  stop_set = false;
  forced_set = false;
  force_published = false;
  stop_requests = 0;
  has_worker = false;
  worker_busy = false;
  releases = 0;
  timers = [];
  forced_exits = [];
  jobs_processed = 0;
  polls = 0;
  idle_waits = [];
  failure_waits = [];
}

-- `busy`
abbrev pub is_at_work : WorkerRuntime → Bool
is_at_work rt = rt.has_worker && rt.worker_busy

abbrev pub moved_to : ProcessState → WorkerRuntime → WorkerRuntime
moved_to target rt = record rt { lifecycle = (transition_if_allowed target rt.lifecycle).1 }

-- `_schedule`
abbrev pub schedule : ℕ → Timed → WorkerRuntime → WorkerRuntime
schedule delay action rt = record rt { timers = (delay, action) ∷ rt.timers }

-- `_force`: only the first call does anything.
unfoldable pub force : WorkerSettings → WorkerRuntime → WorkerRuntime
force settings rt =
    if rt.forced_set
    then rt
    else schedule settings.forced_exit_delay hard_exit_if_stuck
        (record (moved_to forced (record rt {
          forced_set = true;
          stop_set = true;
          releases = if rt.has_worker then rt.releases + 1 else rt.releases;
        })) { force_published = true })

-- `request_stop`
unfoldable pub request_stop : WorkerSettings → WorkerRuntime → WorkerRuntime
request_stop settings rt =
    let counted : WorkerRuntime = record rt { stop_requests = rt.stop_requests + 1 } in
    if counted.stop_requests == 1
    then schedule settings.shutdown_grace grace_expired
        (record (moved_to draining counted) { stop_set = true })
    else force settings counted

-- `_grace_expired`
unfoldable pub on_grace_expired : WorkerSettings → WorkerRuntime → WorkerRuntime
on_grace_expired settings rt = if is_at_work rt then force settings rt else rt

-- `_hard_exit_if_stuck`
unfoldable pub on_hard_exit : WorkerRuntime → WorkerRuntime
on_hard_exit rt =
    if is_at_work rt then record rt { forced_exits = exit_forced ∷ rt.forced_exits } else rt

-- What other threads call.
pub data Signal : Type 0 where
  asks_to_stop : Signal
  fires : Timed → Signal

unfoldable pub signal : WorkerSettings → Signal → WorkerRuntime → WorkerRuntime
signal settings asks_to_stop rt = request_stop settings rt
signal settings (fires grace_expired) rt = on_grace_expired settings rt
signal settings (fires hard_exit_if_stuck) rt = on_hard_exit rt

unfoldable pub deliver : WorkerSettings → List Signal → WorkerRuntime → WorkerRuntime
deliver settings [] rt = rt
deliver settings (x ∷ xs) rt = deliver settings xs (signal settings x rt)

-- `_job_started` and `_job_ended`, with the worker's `_active` around them.
unfoldable pub job_started : WorkerRuntime → WorkerRuntime
job_started rt = moved_to busy (record rt { worker_busy = true })

-- `if self.lifecycle.state is ProcessState.BUSY`
unfoldable pub free_if : ProcessState → WorkerRuntime → WorkerRuntime
free_if busy rt = moved_to ready rt
free_if _ rt = rt

unfoldable pub job_ended : WorkerRuntime → WorkerRuntime
job_ended rt =
    free_if rt.lifecycle.state
      (record rt { worker_busy = false; jobs_processed = rt.jobs_processed + 1 })
