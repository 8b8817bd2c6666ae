-- ===== src/Process/Forcing.antt =====
-- The forced stop: what every step of the process keeps of it.
use mervio.Worker.Lifecycle.{transition, forced, Lifecycle, draining}
use mervio.Prelude.{
  ◌≡◌, false, true, ◌≤◌, if◌then◌else◌, arith, ◌∙◌, refl, sym, if-elim, Bool, ◌+◌, ℕ, List, ◌==◌,
  ◌∷◌,
}
use mervio.Worker.Lifecycle.{transition_if_allowed, ProcessState, transitions, is_final}
use mervio.Process.{
  WorkerRuntime, force, WorkerSettings, moved_to, Signal, signal, request_stop, on_grace_expired,
  on_hard_exit, fires, is_at_work, asks_to_stop, grace_expired, hard_exit_if_stuck, exit_forced,
}

-- The process is FORCED exactly once `_forced` is set, never ends otherwise before `run` does, and the
-- job at hand is given back at most once.
pub record Sound (rt : WorkerRuntime) : Type 0 where
  pub stopping : rt.forced_set ≡ true → rt.stop_set ≡ true
  pub ended : rt.forced_set ≡ true → rt.lifecycle.state ≡ forced
  pub open_ : rt.forced_set ≡ false → is_final rt.lifecycle.state ≡ false
  pub once : rt.releases ≤ 1
  pub unused : rt.forced_set ≡ false → rt.releases ≡ 0

pub moved-state :
    (t : ProcessState) (l : Lifecycle)
    → (transition_if_allowed t l).1.state ≡ (if transitions l.state t then t else l.state)
unfolding transition_if_allowed transition
moved-state t l = ground arith

-- A move to a state that is not final keeps a FORCED process FORCED and an open one open.
moved-open :
    (s t : ProcessState)
    → is_final t ≡ false
    → is_final s ≡ false
    → is_final (if transitions s t then t else s) ≡ false
moved-open s t h k = ground arith

pub moved-forced : (s t : ProcessState) → s ≡ forced → (if transitions s t then t else s) ≡ forced
unfolding transitions
moved-forced s t h = rw h refl

open-forced :
    (s : ProcessState) → is_final s ≡ false → (if transitions s forced then forced else s) ≡ forced
unfolding transitions
open-forced s h = ground arith

pub moved_to-Sound :
    (t : ProcessState) (rt : WorkerRuntime) → is_final t ≡ false → Sound rt → Sound (moved_to t rt)
moved_to-Sound t rt h k = record {
  stopping = k.stopping;
  ended = λ e. moved-state t rt.lifecycle ∙ moved-forced rt.lifecycle.state t (k.ended e);
  open_ = λ e. rw (moved-state t rt.lifecycle) (moved-open rt.lifecycle.state t h (k.open_ e));
  once = k.once;
  unused = k.unused;
}

force-Sound :
    (settings : WorkerSettings) (rt : WorkerRuntime) → Sound rt → Sound (force settings rt)
unfolding force
force-Sound settings rt k =
    if-elim Sound rt.forced_set (λ e. k)
      (λ e. record {
        stopping = λ _. refl;
        ended = λ _. moved-state forced rt.lifecycle ∙ open-forced rt.lifecycle.state (k.open_ e);
        open_ = λ absurd_. cc;
        once = ground (arith, k.unused e);
        unused = λ absurd_. cc;
      })

-- The invariant does not read the rest of the process.
pub same-Sound :
    (rt other : WorkerRuntime)
    → other.forced_set ≡ rt.forced_set
    → other.stop_set ≡ rt.stop_set
    → other.lifecycle.state ≡ rt.lifecycle.state
    → other.releases ≡ rt.releases
    → Sound rt
    → Sound other
same-Sound rt other f s l n k = record {
  stopping = λ e. s ∙ k.stopping (sym f ∙ e);
  ended = λ e. l ∙ k.ended (sym f ∙ e);
  open_ = λ e. rw l (k.open_ (sym f ∙ e));
  once = rw n (k.once);
  unused = λ e. n ∙ k.unused (sym f ∙ e);
}

request_stop-Sound :
    (settings : WorkerSettings) (rt : WorkerRuntime) → Sound rt → Sound (request_stop settings rt)
unfolding request_stop
request_stop-Sound settings rt k =
    let counted : WorkerRuntime = record rt { stop_requests = rt.stop_requests + 1 } in
    let same = same-Sound rt counted refl refl refl refl k in
    let drained = moved_to-Sound draining counted refl same in
    if-elim Sound (counted.stop_requests == 1)
      (λ e. record {
        stopping = λ _. refl;
        ended = drained.ended;
        open_ = drained.open_;
        once = drained.once;
        unused = drained.unused;
      })
      (λ e. force-Sound settings counted same)

pub signal-Sound :
    (settings : WorkerSettings) (x : Signal) (rt : WorkerRuntime)
    → Sound rt
    → Sound (signal settings x rt)
unfolding signal on_grace_expired on_hard_exit
signal-Sound settings asks_to_stop rt k = request_stop-Sound settings rt k
signal-Sound settings (fires grace_expired) rt k =
    if-elim Sound (is_at_work rt) (λ e. force-Sound settings rt k) (λ e. k)
signal-Sound settings (fires hard_exit_if_stuck) rt k =
    if-elim Sound (is_at_work rt)
      (λ e.
        same-Sound rt (record rt { forced_exits = exit_forced ∷ rt.forced_exits }) refl refl refl
          refl k)
      (λ e. k)

-- What every statement of the main thread and every signal keeps.
pub record Kept (settings : WorkerSettings) (P : WorkerRuntime → Type 0) : Type 1 where
  pub moves :
      (t : ProcessState) (rt : WorkerRuntime) → is_final t ≡ false → P rt → P (moved_to t rt)
  pub signals : (x : Signal) (rt : WorkerRuntime) → P rt → P (signal settings x rt)
  pub works :
      (b : Bool) (n : ℕ) (rt : WorkerRuntime)
      → P rt
      → P (record rt { worker_busy = b; jobs_processed = n })
  pub employs : (rt : WorkerRuntime) → P rt → P (record rt { has_worker = true })
  pub waits_idle : (w : List ℕ) (rt : WorkerRuntime) → P rt → P (record rt { idle_waits = w })
  pub waits_failed : (w : List ℕ) (rt : WorkerRuntime) → P rt → P (record rt { failure_waits = w })

pub kept-Sound : (settings : WorkerSettings) → Kept settings Sound
kept-Sound settings = record {
  moves = moved_to-Sound;
  signals = signal-Sound settings;
  works = λ b n rt.
      same-Sound rt (record rt { worker_busy = b; jobs_processed = n }) refl refl refl refl;
  employs = λ rt. same-Sound rt (record rt { has_worker = true }) refl refl refl refl;
  waits_idle = λ w rt. same-Sound rt (record rt { idle_waits = w }) refl refl refl refl;
  waits_failed = λ w rt. same-Sound rt (record rt { failure_waits = w }) refl refl refl refl;
}

pub polled-Sound : (rt : WorkerRuntime) → Sound rt → Sound (record rt { polls = rt.polls + 1 })
polled-Sound rt = same-Sound rt (record rt { polls = rt.polls + 1 }) refl refl refl refl
