-- ===== src/Process/Exits.antt =====
-- How a run of the process ends.
use mervio.Jobs.Guard.{seconds}
use mervio.Process.Connecting.{failing}
use mervio.Process.Looping.{LoopEnd, going, left, broke_down, loop}
use mervio.Process.Keeping.{deliver-kept, connect_from-kept, iterations-kept}
use mervio.Process.Connecting.{
  by_force, Reason, on_request, crashed, connect_from, Connection, on_opening, connect, Opening,
  aborted, made, Attempt, first_delay, pending, next_delay, opened, schema_not_ready,
  unsafe_configuration,
}
use mervio.Process.Forcing.{
  Sound, kept-Sound, moved-state, moved-forced, moved_to-Sound, polled-Sound,
}
use mervio.Prelude.{
  true, ◌≡◌, [], false, arith, refl, if◌then◌else◌, ℕ, ◌<◌, ◌≢◌, if-elim, Option, ◌∙◌, some, none,
  List, ◌⊎◌, Bool, ◌+◌, inr, inl, ◌∷◌, ltb,
}
use mervio.Process.Running.{RunResult, Script, finish, after_loop, run_ready, after_connect, run}
use mervio.Worker.Lifecycle.{
  transitions, ProcessState, new_lifecycle, is_final, forced, stopped, draining, transition,
  transition_if_allowed, ready, Lifecycle,
}
use mervio.Process.{
  new_runtime, WorkerSettings, exit_forced, deliver, WorkerRuntime, moved_to, exit_ok,
  exit_internal,
}

pub new_runtime-Sound : Sound new_runtime
unfolding new_runtime new_lifecycle
new_runtime-Sound = record {
  stopping = λ e. cc;
  ended = λ e. cc;
  open_ = λ e. refl;
  once = omega arith;
  unused = λ e. refl;
}

-- A forced exit, or a clean end that is not one.
pub data Ended (r : RunResult) : Type 0 where
  by_second_signal : r.state ≡ forced → r.exit_code ≡ exit_forced → r.reason ≡ by_force → Ended r
  in_order : r.state ≡ stopped → r.exit_code < exit_forced → r.reason ≢ by_force → Ended r

stopped-state :
    (s : ProcessState)
    → is_final s ≡ false
    → (let t = if transitions s draining then draining else s in
        if transitions t stopped then stopped else t)
      ≡ stopped
unfolding transitions
stopped-state s h = ground arith

transition-moved :
    (t : ProcessState) (l : Lifecycle) (p : ProcessState × Lifecycle)
    → transition t l ≡ inr p
    → p.1 ≡ (transition_if_allowed t l).1
unfolding transition transition_if_allowed
transition-moved t l p h = ground arith

-- `_connect` gives up with a code that is not that of a forced exit.
abbrev Proper : Connection → Type 0
Proper made = Unit
Proper pending = Unit
Proper (aborted code reason) = (code < exit_forced) × (reason ≢ by_force)

on_opening-Proper :
    (o : Opening) (late : Bool) (tried waited : WorkerRuntime) (later : Connection × WorkerRuntime)
    → Proper later.0
    → Proper (on_opening o late tried waited later).0
unfolding on_opening
on_opening-Proper opened late tried waited later h = tt
on_opening-Proper schema_not_ready late tried waited later h = (omega arith, λ e. cc)
on_opening-Proper unsafe_configuration late tried waited later h = (omega arith, λ e. cc)
on_opening-Proper (failing false) late tried waited later h = (omega arith, λ e. cc)
on_opening-Proper (failing true) true tried waited later h = (omega arith, λ e. cc)
on_opening-Proper (failing true) false tried waited later h =
    if-elim (λ (r : Connection × WorkerRuntime). Proper r.0) waited.stop_set
      (λ e. (omega arith, λ d. cc)) (λ e. h)

connect_from-Proper :
    (settings : WorkerSettings) (deadline delay : ℕ) (turns : List Attempt) (rt : WorkerRuntime)
    → Proper (connect_from settings deadline delay turns rt).0
unfolding connect_from
connect_from-Proper settings deadline delay [] rt = tt
connect_from-Proper settings deadline delay (a ∷ turns) rt =
    let tested = deliver settings a.before rt in
    let tried = deliver settings a.meanwhile tested in
    let waited = deliver settings a.waiting tried in
    if-elim (λ (r : Connection × WorkerRuntime). Proper r.0) tested.stop_set
      (λ e. (omega arith, λ d. cc))
      (λ e.
        on_opening-Proper a.opening (ltb deadline (a.clock + delay)) tried waited
          (connect_from settings deadline (next_delay delay) turns waited)
          (connect_from-Proper settings deadline (next_delay delay) turns waited))

drained-state :
    (rt : WorkerRuntime)
    → is_final rt.lifecycle.state ≡ false
    → (moved_to stopped (moved_to draining rt)).lifecycle.state ≡ stopped
drained-state rt h =
    rw (moved-state stopped (moved_to draining rt).lifecycle, moved-state draining rt.lifecycle)
      (stopped-state rt.lifecycle.state h)

module _ (settings : WorkerSettings) (script : Script) (quiet : script.last ≡ []) where
  finish-Ended :
      (code : ℕ) (reason : Reason) (rt : WorkerRuntime)
      → code < exit_forced
      → reason ≢ by_force
      → Sound rt
      → Ended (finish settings script code reason rt)
  unfolding finish deliver
  finish-Ended code reason rt c n k =
      let ended = deliver settings script.late rt in
      let ke = deliver-kept settings Sound (kept-Sound settings) script.late rt k in
      rw quiet (
        if-elim Ended ended.forced_set
          (λ e.
            by_second_signal
              (moved-state forced ended.lifecycle
                ∙ moved-forced ended.lifecycle.state forced (ke.ended e))
              refl refl)
          (λ e. in_order (drained-state ended (ke.open_ e)) c n))

  abbrev EndsWell : Option RunResult → Type 0
  EndsWell none = Unit
  EndsWell (some r) = Ended r

  after_loop-Ended :
      (e : LoopEnd) (rt : WorkerRuntime) → Sound rt → EndsWell (after_loop settings script e rt)
  unfolding after_loop
  after_loop-Ended left rt k = finish-Ended exit_ok on_request rt (omega arith) (λ e. cc) k
  after_loop-Ended broke_down rt k = finish-Ended exit_internal crashed rt (omega arith) (λ e. cc) k
  after_loop-Ended (going l) rt k = tt

  run_ready-Ended :
      (t : (ProcessState × ProcessState) ⊎ (ProcessState × Lifecycle)) (rt : WorkerRuntime)
      → transition ready rt.lifecycle ≡ t
      → Sound rt
      → EndsWell (run_ready settings script t rt)
  unfolding run_ready loop
  run_ready-Ended (inl e) rt h k = finish-Ended exit_internal crashed rt (omega arith) (λ e. cc) k
  run_ready-Ended (inr p) rt h k =
      let started : WorkerRuntime = record rt { lifecycle = p.1 } in
      let ready_now : Sound started =
        rw (transition-moved ready rt.lifecycle p h) (moved_to-Sound ready rt refl k) in
      let end = loop settings script.loop_clock script.turns started in
      after_loop-Ended end.0 end.1 (
        iterations-kept settings Sound (kept-Sound settings) polled-Sound
          (record {
            poll = settings.poll_interval;
            next_recovery = script.loop_clock;
            failure_delay = seconds 1;
          })
          script.turns started ready_now)

  after_connect-Ended :
      (c : Connection) (rt : WorkerRuntime)
      → Proper c
      → Sound rt
      → EndsWell (after_connect settings script c rt)
  unfolding after_connect
  after_connect-Ended pending rt p k = tt
  after_connect-Ended (aborted code reason) rt p k = finish-Ended code reason rt p.0 p.1 k
  after_connect-Ended made rt p k =
      let tested = deliver settings script.before_ready rt in
      let moving = deliver settings script.after_test tested in
      let kt = deliver-kept settings Sound (kept-Sound settings) script.before_ready rt k in
      if-elim EndsWell tested.stop_set
        (λ e. finish-Ended exit_ok on_request tested (omega arith) (λ e. cc) kt)
        (λ e.
          run_ready-Ended (transition ready moving.lifecycle) moving refl
            (deliver-kept settings Sound (kept-Sound settings) script.after_test tested kt))

  run-EndsWell : EndsWell (run settings script)
  unfolding run connect
  run-EndsWell =
      let early = deliver settings script.early new_runtime in
      let ke =
        deliver-kept settings Sound (kept-Sound settings) script.early new_runtime
          new_runtime-Sound in
      let deadline = script.connect_clock + settings.startup_timeout in
      let connected = connect_from settings deadline first_delay script.attempts early in
      after_connect-Ended connected.0 connected.1
        (connect_from-Proper settings deadline first_delay script.attempts early)
        (connect_from-kept settings Sound (kept-Sound settings) deadline first_delay script.attempts
          early ke)

  -- A run that ends, with no call by another thread after its last test of the forced stop, ends FORCED
  -- with code 5 and the reason of a forced stop, or STOPPED with a code below 5 and another reason.
  pub run-Ended : (r : RunResult) → run settings script ≡ some r → Ended r
  run-Ended r h = rw h at run-EndsWell
