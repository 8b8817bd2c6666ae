-- ===== src/Process/Running.antt =====
-- `run` of workers/runtime.py.
use mervio.Worker.Lifecycle.{draining, forced, ready, stopped, Lifecycle}
use mervio.Process.Looping.{Iteration, loop, left, going, broke_down, LoopEnd}
use mervio.Process.Connecting.{
  Reason, connect, Attempt, by_force, crashed, pending, aborted, on_request, made, Connection,
}
use mervio.Worker.Lifecycle.{ProcessState, transition}
use mervio.Prelude.{List, ℕ, Option, if◌then◌else◌, inl, some, inr, none, ◌⊎◌}
use mervio.Process.{
  WorkerSettings, Signal, WorkerRuntime, deliver, new_runtime, exit_forced, moved_to, exit_internal,
  exit_ok,
}

-- What happens to one run: the clock when `_connect` starts and when `_loop` does, the turns of both,
-- and the signals at the places between them that the code's tests leave open.
pub record Script : Type 0 where
  pub early : List Signal
  pub connect_clock : ℕ
  pub attempts : List Attempt
  pub before_ready : List Signal
  pub after_test : List Signal
  pub loop_clock : ℕ
  pub turns : List Iteration
  pub late : List Signal
  pub last : List Signal

-- `RunResult`
pub record RunResult : Type 0 where
  pub state : ProcessState
  pub exit_code : ℕ
  pub jobs_processed : ℕ
  pub reason : Reason

abbrev result_of : ℕ → Reason → WorkerRuntime → RunResult
result_of code reason rt = record {
  state = rt.lifecycle.state;
  exit_code = code;
  jobs_processed = rt.jobs_processed;
  reason = reason;
}

-- The end of `run`, after the `finally`.
unfoldable pub finish : WorkerSettings → Script → ℕ → Reason → WorkerRuntime → RunResult
finish settings script code reason rt =
    let ended : WorkerRuntime = deliver settings script.late rt in
    if ended.forced_set
    then result_of exit_forced by_force (moved_to forced ended)
    else result_of code reason
        (moved_to stopped (moved_to draining (deliver settings script.last ended)))

-- What `run` does with the end of `_loop`; `none` while the loop goes on.
unfoldable pub after_loop : WorkerSettings → Script → LoopEnd → WorkerRuntime → Option RunResult
after_loop settings script left rt = some (finish settings script exit_ok on_request rt)
after_loop settings script broke_down rt = some (finish settings script exit_internal crashed rt)
after_loop settings script (going l) rt = none

-- The transition to READY, which raises where another thread has moved the life cycle, and the loop.
unfoldable pub run_ready :
    WorkerSettings
    → Script
    → (ProcessState × ProcessState) ⊎ (ProcessState × Lifecycle)
    → WorkerRuntime
    → Option RunResult
run_ready settings script (inl e) rt = some (finish settings script exit_internal crashed rt)
run_ready settings script (inr p) rt =
    let end = loop settings script.loop_clock script.turns (record rt { lifecycle = p.1 }) in
    after_loop settings script end.0 end.1

-- What `run` does with the end of `_connect`.
unfoldable pub after_connect :
    WorkerSettings → Script → Connection → WorkerRuntime → Option RunResult
after_connect settings script pending rt = none
after_connect settings script (aborted code reason) rt =
    some (finish settings script code reason rt)
after_connect settings script made rt =
    let tested : WorkerRuntime = deliver settings script.before_ready rt in
    let moving : WorkerRuntime = deliver settings script.after_test tested in
    if tested.stop_set
    then some (finish settings script exit_ok on_request tested)
    else run_ready settings script (transition ready moving.lifecycle) moving

-- `run`, of a script whose turns reach the end of the run or not.
unfoldable pub run : WorkerSettings → Script → Option RunResult
run settings script =
    let connected =
      connect settings script.connect_clock script.attempts
        (deliver settings script.early new_runtime) in
    after_connect settings script connected.0 connected.1
