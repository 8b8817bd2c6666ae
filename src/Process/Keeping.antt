-- ===== src/Process/Keeping.antt =====
-- What the whole run of the process keeps, from what each of its steps keeps.
use mervio.Process.Connecting.{failing}
use mervio.Worker.Lifecycle.{
  degraded, ProcessState, ready, starting, busy, draining, stopped, forced,
}
use mervio.Prelude.{
  ℕ, List, Bool, ◌∷◌, ◌*◌, if-elim, ◌/◌, [], false, true, refl, ltb, Option, ◌+◌, leb, some, none,
}
use mervio.Process.Looping.{
  after_poll, after_failure, back_to_ready, LoopState, Iteration, LoopEnd, run_once, after_recovery,
  iterate, iterate_then, ready_if, iterations, poll_once, going, left, broke_down, Polling,
  poll_raises, worked, idle,
}
use mervio.Process.Connecting.{
  connect_from, Attempt, Connection, on_opening, Opening, next_delay, opened, schema_not_ready,
  unsafe_configuration,
}
use mervio.Process.Forcing.{Kept}
use mervio.Process.{
  WorkerSettings, WorkerRuntime, deliver, Signal, signal, moved_to, free_if, job_started, job_ended,
}

module _ (settings : WorkerSettings) (P : WorkerRuntime → Type 0) (kept : Kept settings P) where
  pub deliver-kept : (xs : List Signal) (rt : WorkerRuntime) → P rt → P (deliver settings xs rt)
  unfolding deliver
  deliver-kept [] rt h = h
  deliver-kept (x ∷ xs) rt h = deliver-kept xs (signal settings x rt) (kept.signals x rt h)

  on_opening-kept :
      (o : Opening) (late : Bool) (tried waited : WorkerRuntime)
      (later : Connection × WorkerRuntime)
      → P tried
      → P waited
      → P later.1
      → P (on_opening o late tried waited later).1
  unfolding on_opening
  on_opening-kept opened late tried waited later h k m = kept.employs tried h
  on_opening-kept schema_not_ready late tried waited later h k m = h
  on_opening-kept unsafe_configuration late tried waited later h k m = h
  on_opening-kept (failing false) late tried waited later h k m = h
  on_opening-kept (failing true) true tried waited later h k m = h
  on_opening-kept (failing true) false tried waited later h k m =
      if-elim (λ (r : Connection × WorkerRuntime). P r.1) waited.stop_set (λ e. k) (λ e. m)

  pub connect_from-kept :
      (deadline delay : ℕ) (turns : List Attempt) (rt : WorkerRuntime)
      → P rt
      → P (connect_from settings deadline delay turns rt).1
  unfolding connect_from
  connect_from-kept deadline delay [] rt h = h
  connect_from-kept deadline delay (a ∷ turns) rt h =
      let tested = deliver settings a.before rt in
      let tried = deliver settings a.meanwhile tested in
      let waited = deliver settings a.waiting tried in
      let kt = deliver-kept a.before rt h in
      let kd = deliver-kept a.meanwhile tested kt in
      let kw = deliver-kept a.waiting tried kd in
      if-elim (λ (r : Connection × WorkerRuntime). P r.1) tested.stop_set (λ e. kt)
        (λ e.
          on_opening-kept a.opening (ltb deadline (a.clock + delay)) tried waited
            (connect_from settings deadline (next_delay delay) turns waited) kd kw
            (connect_from-kept deadline (next_delay delay) turns waited kw))

  ready_if-kept : (s : ProcessState) (rt : WorkerRuntime) → P rt → P (ready_if s rt)
  unfolding ready_if
  ready_if-kept degraded rt h = kept.moves ready rt refl h
  ready_if-kept starting rt h = h
  ready_if-kept ready rt h = h
  ready_if-kept busy rt h = h
  ready_if-kept draining rt h = h
  ready_if-kept stopped rt h = h
  ready_if-kept forced rt h = h

  free_if-kept : (s : ProcessState) (rt : WorkerRuntime) → P rt → P (free_if s rt)
  unfolding free_if
  free_if-kept busy rt h = kept.moves ready rt refl h
  free_if-kept degraded rt h = h
  free_if-kept starting rt h = h
  free_if-kept ready rt h = h
  free_if-kept draining rt h = h
  free_if-kept stopped rt h = h
  free_if-kept forced rt h = h

  pub after_failure-kept :
      (l : LoopState) (waiting : List Signal) (retryable : Bool) (rt : WorkerRuntime)
      → P rt
      → P (after_failure settings l waiting retryable rt).1
  unfolding after_failure
  after_failure-kept l waiting false rt h = h
  after_failure-kept l waiting true rt h =
      let lost = moved_to degraded rt in
      let waited =
        deliver settings waiting
          (record lost { failure_waits = l.failure_delay ∷ lost.failure_waits }) in
      let kw =
        deliver-kept waiting (record lost { failure_waits = l.failure_delay ∷ lost.failure_waits })
          (kept.waits_failed (l.failure_delay ∷ lost.failure_waits) lost
            (kept.moves degraded rt refl h)) in
      if-elim (λ (r : LoopEnd × WorkerRuntime). P r.1) waited.stop_set (λ e. kw) (λ e. kw)

  after_poll-kept :
      (l : LoopState) (i : Iteration) (some_job : Bool) (rt : WorkerRuntime)
      → P rt
      → P (after_poll settings l i some_job rt).1
  unfolding after_poll
  after_poll-kept l i true rt h = ready_if-kept rt.lifecycle.state rt h
  after_poll-kept l i false rt h =
      let again = back_to_ready rt in
      let noted : WorkerRuntime = record again {
        idle_waits = (l.poll * i.jitter / 1000) ∷ again.idle_waits;
      } in
      let kw = deliver-kept i.waiting noted (
        kept.waits_idle ((l.poll * i.jitter / 1000) ∷ again.idle_waits) again
          (ready_if-kept rt.lifecycle.state rt h)) in
      if-elim (λ (r : LoopEnd × WorkerRuntime). P r.1) (deliver settings i.waiting noted).stop_set
        (λ e. kw) (λ e. kw)

  pub run_once-kept :
      (l : LoopState) (i : Iteration) (p : Polling) (rt : WorkerRuntime)
      → P rt
      → P (run_once settings l i p rt).1
  unfolding run_once job_started job_ended
  run_once-kept l i idle rt h = after_poll-kept l i false rt h
  run_once-kept l i (poll_raises retryable) rt h = after_failure-kept l i.waiting retryable rt h
  run_once-kept l i (worked claiming running) rt h =
      let a = deliver settings claiming rt in
      let b : WorkerRuntime = record a { worker_busy = true } in
      let c = deliver settings running (moved_to busy b) in
      let kb = kept.works true a.jobs_processed a (deliver-kept claiming rt h) in
      let kc = deliver-kept running (moved_to busy b) (kept.moves busy b refl kb) in
      after_poll-kept l i true (job_ended c) (
        free_if-kept c.lifecycle.state
          (record c { worker_busy = false; jobs_processed = c.jobs_processed + 1 })
          (kept.works false (c.jobs_processed + 1) c kc))

module _ (settings : WorkerSettings) (P : WorkerRuntime → Type 0) (kept : Kept settings P)
    (polled : (rt : WorkerRuntime) → P rt → P (record rt { polls = rt.polls + 1 })) where
  poll_once-kept :
      (l : LoopState) (i : Iteration) (rt : WorkerRuntime) → P rt → P (poll_once settings l i rt).1
  poll_once-kept l i rt h =
      run_once-kept settings P kept l i i.polling (record rt { polls = rt.polls + 1 }) (polled rt h)

  after_recovery-kept :
      (l : LoopState) (i : Iteration) (o : Option Bool) (rt : WorkerRuntime)
      → P rt
      → P (after_recovery settings l i o rt).1
  unfolding after_recovery
  after_recovery-kept l i none rt h =
      poll_once-kept (record l { next_recovery = i.clock_after + settings.recovery_interval }) i rt
        h
  after_recovery-kept l i (some retryable) rt h =
      after_failure-kept settings P kept l i.waiting retryable rt h

  pub iterate-kept :
      (l : LoopState) (i : Iteration) (rt : WorkerRuntime) → P rt → P (iterate settings l i rt).1
  unfolding iterate
  iterate-kept l i rt h =
      let tested = deliver settings i.before rt in
      let kt = deliver-kept settings P kept i.before rt h in
      if-elim (λ (r : LoopEnd × WorkerRuntime). P r.1) tested.stop_set (λ e. kt)
        (λ e.
          if-elim (λ (r : LoopEnd × WorkerRuntime). P r.1) (leb l.next_recovery i.clock)
            (λ d. after_recovery-kept l i i.recovery tested kt) (λ d. poll_once-kept l i tested kt))

  iterate_then-kept :
      (e : LoopEnd) (next : LoopState → LoopEnd × WorkerRuntime) (rt : WorkerRuntime)
      → P rt
      → ((l : LoopState) → P (next l).1)
      → P (iterate_then e next rt).1
  unfolding iterate_then
  iterate_then-kept left next rt h k = h
  iterate_then-kept broke_down next rt h k = h
  iterate_then-kept (going l) next rt h k = k l

  pub iterations-kept :
      (l : LoopState) (turns : List Iteration) (rt : WorkerRuntime)
      → P rt
      → P (iterations settings l turns rt).1
  unfolding iterations
  iterations-kept l [] rt h = h
  iterations-kept l (i ∷ turns) rt h =
      let turn = iterate settings l i rt in
      let kt = iterate-kept l i rt h in
      iterate_then-kept turn.0 (λ next. iterations settings next turns turn.1) turn.1 kt
        (λ next. iterations-kept next turns turn.1 kt)
