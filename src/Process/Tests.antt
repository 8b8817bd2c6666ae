-- ===== src/Process/Tests.antt =====
-- The theorems on the process, on small runs.
use mervio.Process.Patience.{connect_returns}
use mervio.Process.Looping.{
  Polling, loop, idle, Iteration, worked, iterations, iterate_then, iterate, after_recovery,
  run_once, after_poll, ready_if, after_failure,
}
use mervio.Jobs.Guard.{seconds}
use mervio.Process.Leaving.{Over, stop_ends_loop}
use mervio.Worker.Lifecycle.{
  stopped, new_lifecycle, transition, transition_if_allowed, transitions, forced,
}
use mervio.Process.Connecting.{
  connect, Opening, connect_from, Attempt, failing, pending, on_opening, on_request, opened,
  crashed,
}
use mervio.Process.{
  new_runtime, WorkerSettings, Signal, deliver, signal, asks_to_stop, job_started, job_ended,
  free_if, request_stop, force, exit_internal,
}
use mervio.Process.Exits.{Ended, run-Ended, new_runtime-Sound}
use mervio.Process.Running.{RunResult, run, Script, after_connect, run_ready, after_loop, finish}
use mervio.Prelude.{ℕ, List, ◌≢◌, [], refl, true, arith, none, ◌∷◌, ◌≤◌, ◌+◌, ◌≡◌, some}

abbrev small_settings : WorkerSettings
small_settings = record {
  startup_timeout = seconds 1;
  poll_interval = seconds 1;
  poll_max = seconds 8;
  recovery_interval = seconds 60;
  shutdown_grace = seconds 30;
  forced_exit_delay = seconds 5;
}

abbrev opening_at : ℕ → Opening → Attempt
opening_at clock o = record {
  before = [];
  opening = o;
  meanwhile = [];
  clock = clock;
  waiting = [];
}

abbrev turning : List Signal → Polling → Iteration
turning before polling = record {
  before = before;
  clock = seconds 2;
  recovery = none;
  clock_after = seconds 3;
  polling = polling;
  jitter = 1000;
  waiting = [];
}

-- A worker that connects at the second try, works on a job, and is told to stop during the next.
abbrev small_script : Script
small_script = record {
  early = [];
  connect_clock = 0;
  attempts = opening_at 0 (failing true) ∷ opening_at (seconds 1) opened ∷ [];
  before_ready = [];
  after_test = [];
  loop_clock = seconds 1;
  turns =
      turning [] (worked [] []) ∷ turning [] (worked [] (asks_to_stop ∷ [])) ∷ turning [] idle ∷ [];
  late = [];
  last = [];
}

abbrev stopped_result : RunResult
stopped_result = record { state = stopped; exit_code = 0; jobs_processed = 2; reason = on_request }

small_run : run small_settings small_script ≡ some stopped_result
unfolding run connect connect_from on_opening deliver signal after_connect run_ready after_loop loop
    iterations iterate_then iterate after_recovery run_once job_started job_ended free_if after_poll
    ready_if finish request_stop force new_runtime new_lifecycle transition transition_if_allowed
    transitions after_failure
small_run = refl

run-Ended_example : Ended stopped_result
run-Ended_example = run-Ended small_settings small_script refl stopped_result small_run

-- A second signal after the last test of the forced stop: the process is FORCED, and exits with code 0.
forced_unseen :
    run small_settings (record small_script { last = asks_to_stop ∷ [] })
    ≡ some (record stopped_result { state = forced })
unfolding run connect connect_from on_opening deliver signal after_connect run_ready after_loop loop
    iterations iterate_then iterate after_recovery run_once job_started job_ended free_if after_poll
    ready_if finish request_stop force new_runtime new_lifecycle transition transition_if_allowed
    transitions after_failure
forced_unseen = refl

-- A first signal between the test of the stop and the transition to READY: code 1 for a clean stop.
stop_takes_for_crash :
    run small_settings (record small_script { after_test = asks_to_stop ∷ [] })
    ≡ some
        (record stopped_result { exit_code = exit_internal; jobs_processed = 0; reason = crashed })
unfolding run connect connect_from on_opening deliver signal after_connect run_ready after_loop loop
    iterations iterate_then iterate after_recovery run_once job_started job_ended free_if after_poll
    ready_if finish request_stop force new_runtime new_lifecycle transition transition_if_allowed
    transitions after_failure
stop_takes_for_crash = refl

abbrev failing_twice : List Attempt
failing_twice =
    opening_at 0 (failing true)
    ∷ opening_at 500000 (failing true)
    ∷ opening_at 1500000 (failing true)
    ∷ []

connect_returns_example : (connect small_settings 0 failing_twice new_runtime).0 ≢ pending
connect_returns_example =
    connect_returns small_settings 0 failing_twice new_runtime
      (omega arith, (omega arith, (omega arith, tt))) (omega arith)

stop_ends_loop_example :
    Over
      (loop small_settings 0
        (turning [] idle ∷ turning (asks_to_stop ∷ []) idle ∷ [])
        new_runtime).0
    × ((loop small_settings 0
          (turning [] idle ∷ turning (asks_to_stop ∷ []) idle ∷ [])
          new_runtime).1.polls
        ≤ 0 + 1)
unfolding new_runtime
stop_ends_loop_example =
    stop_ends_loop small_settings 0 (turning [] idle ∷ []) (turning (asks_to_stop ∷ []) idle) []
      new_runtime new_runtime-Sound refl
