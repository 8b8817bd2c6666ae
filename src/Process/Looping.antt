-- ===== src/Process/Looping.antt =====
-- `_loop` of workers/runtime.py.
use mervio.Worker.Lifecycle.{degraded, ready, ProcessState}
use mervio.Jobs.Guard.{seconds}
use mervio.Prelude.{
  ℕ, List, Bool, ◌∷◌, ◌+◌, ◌*◌, if◌then◌else◌, false, Option, leb, ◌/◌, true, min, none, some, [],
}
use mervio.Process.{
  WorkerSettings, WorkerRuntime, Signal, deliver, moved_to, job_ended, job_started,
}

-- What `run_once` does: it finds no job, works on one, with signals before the job starts and while it
-- runs, or raises an error, which `retryable_database_error` holds of or not.
pub data Polling : Type 0 where
  idle : Polling
  worked : List Signal → List Signal → Polling
  poll_raises : Bool → Polling

-- One turn of the loop: the signals before its test, the clock, what `recover_stale` raises, the clock
-- after it, the poll, the jitter in thousandths, and the signals while it waits.
pub record Iteration : Type 0 where
  pub before : List Signal
  pub clock : ℕ
  pub recovery : Option Bool
  pub clock_after : ℕ
  pub polling : Polling
  pub jitter : ℕ
  pub waiting : List Signal

-- The variables of the loop.
pub record LoopState : Type 0 where
  pub poll : ℕ
  pub next_recovery : ℕ
  pub failure_delay : ℕ

pub data LoopEnd : Type 0 where
  left broke_down : LoopEnd
  going : LoopState → LoopEnd

abbrev pub database_retry_cap : ℕ
database_retry_cap = seconds 30

-- The `except` branch: DEGRADED, then the wait for another try.
unfoldable pub after_failure :
    WorkerSettings → LoopState → List Signal → Bool → WorkerRuntime → LoopEnd × WorkerRuntime
after_failure settings l waiting false rt = (broke_down, rt)
after_failure settings l waiting true rt =
    let lost : WorkerRuntime = moved_to degraded rt in
    let waited : WorkerRuntime =
      deliver settings waiting
        (record lost { failure_waits = l.failure_delay ∷ lost.failure_waits }) in
    if waited.stop_set
    then (left, waited)
    else (going (record l { failure_delay = min (l.failure_delay * 2) database_retry_cap }), waited)

-- `if self.lifecycle.state is ProcessState.DEGRADED`
unfoldable pub ready_if : ProcessState → WorkerRuntime → WorkerRuntime
ready_if degraded rt = moved_to ready rt
ready_if _ rt = rt

abbrev pub back_to_ready : WorkerRuntime → WorkerRuntime
back_to_ready rt = ready_if rt.lifecycle.state rt

-- The rest of the turn after a poll that returns.
unfoldable pub after_poll :
    WorkerSettings → LoopState → Iteration → Bool → WorkerRuntime → LoopEnd × WorkerRuntime
after_poll settings l i true rt = (
  going (record l { poll = settings.poll_interval; failure_delay = seconds 1 }),
  back_to_ready rt,
)
after_poll settings l i false rt =
    let again : WorkerRuntime = back_to_ready rt in
    let waited : WorkerRuntime =
      deliver settings i.waiting
        (record again { idle_waits = (l.poll * i.jitter / 1000) ∷ again.idle_waits }) in
    if waited.stop_set then (left, waited) else (
      going (record l { poll = min (l.poll * 2) settings.poll_max; failure_delay = seconds 1 }),
      waited,
    )

-- `run_once`.
unfoldable pub run_once :
    WorkerSettings → LoopState → Iteration → Polling → WorkerRuntime → LoopEnd × WorkerRuntime
run_once settings l i idle rt = after_poll settings l i false rt
run_once settings l i (poll_raises retryable) rt = after_failure settings l i.waiting retryable rt
run_once settings l i (worked claiming running) rt =
    after_poll settings l i true
      (job_ended (deliver settings running (job_started (deliver settings claiming rt))))

-- `self.polls += 1` and the call.
abbrev pub poll_once :
    WorkerSettings → LoopState → Iteration → WorkerRuntime → LoopEnd × WorkerRuntime
poll_once settings l i rt = run_once settings l i i.polling (record rt { polls = rt.polls + 1 })

-- `recover_stale`, if it is due, and then the poll.
unfoldable pub after_recovery :
    WorkerSettings → LoopState → Iteration → Option Bool → WorkerRuntime → LoopEnd × WorkerRuntime
after_recovery settings l i none rt =
    poll_once settings (record l { next_recovery = i.clock_after + settings.recovery_interval }) i
      rt
after_recovery settings l i (some retryable) rt = after_failure settings l i.waiting retryable rt

-- One turn of the `while`.
unfoldable pub iterate :
    WorkerSettings → LoopState → Iteration → WorkerRuntime → LoopEnd × WorkerRuntime
iterate settings l i rt =
    let tested : WorkerRuntime = deliver settings i.before rt in
    if tested.stop_set
    then (left, tested)
    else if leb l.next_recovery i.clock
    then after_recovery settings l i i.recovery tested
    else poll_once settings l i tested

-- The turns of one step of the loop and of the rest.
unfoldable pub iterate_then :
    LoopEnd → (LoopState → LoopEnd × WorkerRuntime) → WorkerRuntime → LoopEnd × WorkerRuntime
iterate_then left next rt = (left, rt)
iterate_then broke_down next rt = (broke_down, rt)
iterate_then (going l) next rt = next l

unfoldable pub iterations :
    WorkerSettings → LoopState → List Iteration → WorkerRuntime → LoopEnd × WorkerRuntime
iterations settings l [] rt = (going l, rt)
iterations settings l (i ∷ rest) rt =
    let turn = iterate settings l i rt in
    iterate_then turn.0 (λ next. iterations settings next rest turn.1) turn.1

-- `_loop`, from a reading of the clock.
unfoldable pub loop : WorkerSettings → ℕ → List Iteration → WorkerRuntime → LoopEnd × WorkerRuntime
loop settings clock =
    iterations settings
      (record { poll = settings.poll_interval; next_recovery = clock; failure_delay = seconds 1 })
