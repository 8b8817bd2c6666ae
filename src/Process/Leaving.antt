-- ===== src/Process/Leaving.antt =====
-- A request to stop ends the loop.
use mervio.Jobs.Guard.{seconds}
use mervio.Process.Keeping.{run_once-kept, deliver-kept, iterate-kept, after_failure-kept}
use mervio.Process.Forcing.{Kept, Sound, signal-Sound, kept-Sound, polled-Sound}
use mervio.Process.Looping.{
  LoopState, Iteration, poll_once, run_once, iterate, iterations, iterate_then, LoopEnd,
  after_recovery, loop, going, left, broke_down, after_failure,
}
use mervio.Prelude.{
  ℕ, List, ◌≡◌, ◌∙◌, Bool, arith, false, true, ◌≤◌, ◌∷◌, ◌+◌, [], refl, Option, length, if-elim,
  ◌++◌, leb, some, none,
}
use mervio.Process.{
  force, signal, request_stop, WorkerSettings, deliver, WorkerRuntime, on_grace_expired, Signal,
  on_hard_exit, fires, asks_to_stop, grace_expired, hard_exit_if_stuck,
}

abbrev pub has_request : List Signal → Bool
has_request [] = false
has_request (asks_to_stop ∷ xs) = true
has_request (fires a ∷ xs) = has_request xs

-- Only the main thread polls.
Polls : ℕ → WorkerRuntime → Type 0
Polls n rt = rt.polls ≡ n

force-polls :
    (settings : WorkerSettings) (rt : WorkerRuntime) → (force settings rt).polls ≡ rt.polls
unfolding force
force-polls settings rt = ground arith

signal-polls :
    (settings : WorkerSettings) (x : Signal) (rt : WorkerRuntime)
    → (signal settings x rt).polls ≡ rt.polls
unfolding signal request_stop on_grace_expired on_hard_exit force
signal-polls settings asks_to_stop rt = ground arith
signal-polls settings (fires grace_expired) rt = ground arith
signal-polls settings (fires hard_exit_if_stuck) rt = ground arith

kept-Polls : (settings : WorkerSettings) (n : ℕ) → Kept settings (Polls n)
unfolding Polls
kept-Polls settings n = record {
  moves = λ t rt h k. k;
  signals = λ x rt k. signal-polls settings x rt ∙ k;
  works = λ b m rt k. k;
  employs = λ rt k. k;
  waits_idle = λ w rt k. k;
  waits_failed = λ w rt k. k;
}

force-stop_set :
    (settings : WorkerSettings) (rt : WorkerRuntime)
    → Sound rt
    → (force settings rt).stop_set ≡ true
unfolding force
force-stop_set settings rt k = ground (arith, k.stopping)

request_stop-stop_set :
    (settings : WorkerSettings) (rt : WorkerRuntime)
    → Sound rt
    → (request_stop settings rt).stop_set ≡ true
unfolding request_stop force
request_stop-stop_set settings rt k = ground (arith, k.stopping)

signal-stop_set :
    (settings : WorkerSettings) (x : Signal) (rt : WorkerRuntime)
    → Sound rt
    → rt.stop_set ≡ true
    → (signal settings x rt).stop_set ≡ true
unfolding signal on_grace_expired on_hard_exit
signal-stop_set settings asks_to_stop rt k h = request_stop-stop_set settings rt k
signal-stop_set settings (fires grace_expired) rt k h = ground (arith, force-stop_set settings rt k)
signal-stop_set settings (fires hard_exit_if_stuck) rt k h = ground arith

deliver-stays :
    (settings : WorkerSettings) (xs : List Signal) (rt : WorkerRuntime)
    → Sound rt
    → rt.stop_set ≡ true
    → (deliver settings xs rt).stop_set ≡ true
unfolding deliver
deliver-stays settings [] rt k h = h
deliver-stays settings (x ∷ xs) rt k h =
    deliver-stays settings xs (signal settings x rt) (signal-Sound settings x rt k)
      (signal-stop_set settings x rt k h)

deliver-stop_set :
    (settings : WorkerSettings) (xs : List Signal) (rt : WorkerRuntime)
    → Sound rt
    → has_request xs ≡ true
    → (deliver settings xs rt).stop_set ≡ true
unfolding deliver signal
deliver-stop_set settings [] rt k h = cc
deliver-stop_set settings (asks_to_stop ∷ xs) rt k h =
    deliver-stays settings xs (request_stop settings rt) (signal-Sound settings asks_to_stop rt k)
      (request_stop-stop_set settings rt k)
deliver-stop_set settings (fires a ∷ xs) rt k h =
    deliver-stop_set settings xs (signal settings (fires a) rt)
      (signal-Sound settings (fires a) rt k) h

-- One turn of the loop polls at most once.
poll_once-polls :
    (settings : WorkerSettings) (l : LoopState) (i : Iteration) (rt : WorkerRuntime)
    → (poll_once settings l i rt).1.polls ≤ rt.polls + 1
unfolding Polls
poll_once-polls settings l i rt =
    let counted : WorkerRuntime = record rt { polls = rt.polls + 1 } in
    let e : (run_once settings l i i.polling counted).1.polls ≡ rt.polls + 1 =
      run_once-kept settings (Polls (rt.polls + 1)) (kept-Polls settings (rt.polls + 1)) l i
        i.polling counted refl in
    omega (arith, e)

after_recovery-polls :
    (settings : WorkerSettings) (l : LoopState) (i : Iteration) (o : Option Bool)
    (rt : WorkerRuntime)
    → (after_recovery settings l i o rt).1.polls ≤ rt.polls + 1
unfolding after_recovery Polls
after_recovery-polls settings l i none rt =
    poll_once-polls settings
      (record l { next_recovery = i.clock_after + settings.recovery_interval }) i rt
after_recovery-polls settings l i (some retryable) rt =
    let e : (after_failure settings l i.waiting retryable rt).1.polls ≡ rt.polls =
      after_failure-kept settings (Polls rt.polls) (kept-Polls settings rt.polls) l i.waiting
        retryable rt refl in
    omega (arith, e)

deliver-polls :
    (settings : WorkerSettings) (xs : List Signal) (rt : WorkerRuntime)
    → (deliver settings xs rt).polls ≡ rt.polls
unfolding Polls
deliver-polls settings xs rt =
    deliver-kept settings (Polls rt.polls) (kept-Polls settings rt.polls) xs rt refl

iterate-polls :
    (settings : WorkerSettings) (l : LoopState) (i : Iteration) (rt : WorkerRuntime)
    → (iterate settings l i rt).1.polls ≤ rt.polls + 1
unfolding iterate
iterate-polls settings l i rt =
    let tested = deliver settings i.before rt in
    let same = deliver-polls settings i.before rt in
    if-elim (λ (r : LoopEnd × WorkerRuntime). r.1.polls ≤ rt.polls + 1) tested.stop_set
      (λ e. omega (arith, same))
      (λ e.
        if-elim (λ (r : LoopEnd × WorkerRuntime). r.1.polls ≤ rt.polls + 1)
          (leb l.next_recovery i.clock)
          (λ d. omega (arith, same, after_recovery-polls settings l i i.recovery tested))
          (λ d. omega (arith, same, poll_once-polls settings l i tested)))

-- The loop has ended.
abbrev pub Over : LoopEnd → Type 0
Over left = Unit
Over broke_down = Unit
Over (going l) = ⊥

Quits : ℕ → LoopEnd × WorkerRuntime → Type 0
Quits n r = Over r.0 × (r.1.polls ≤ n)

iterate-request :
    (settings : WorkerSettings) (l : LoopState) (i : Iteration) (rt : WorkerRuntime)
    → Sound rt
    → has_request i.before ≡ true
    → iterate settings l i rt ≡ (left, deliver settings i.before rt)
unfolding iterate
iterate-request settings l i rt k h = rw (deliver-stop_set settings i.before rt k h) refl

iterate_then-Quits :
    (e : LoopEnd) (next : LoopState → LoopEnd × WorkerRuntime) (rt : WorkerRuntime) (n : ℕ)
    → rt.polls ≤ n
    → ((l : LoopState) → Quits n (next l))
    → Quits n (iterate_then e next rt)
unfolding iterate_then Quits
iterate_then-Quits left next rt n h k = (tt, h)
iterate_then-Quits broke_down next rt n h k = (tt, h)
iterate_then-Quits (going l) next rt n h k = k l

iterations-Quits :
    (settings : WorkerSettings) (l : LoopState) (earlier : List Iteration) (i : Iteration)
    (later : List Iteration) (rt : WorkerRuntime) (n : ℕ)
    → Sound rt
    → has_request i.before ≡ true
    → rt.polls + length earlier ≤ n
    → Quits n (iterations settings l (earlier ++ (i ∷ later)) rt)
unfolding iterations Quits iterate_then
iterations-Quits settings l [] i later rt n k h b =
    rw (iterate-request settings l i rt k h)
      (tt, omega (arith, b, deliver-polls settings i.before rt))
iterations-Quits settings l (j ∷ earlier) i later rt n k h b =
    let turn = iterate settings l j rt in
    iterate_then-Quits turn.0 (λ next. iterations settings next (earlier ++ (i ∷ later)) turn.1)
      turn.1 n (omega (arith, b, iterate-polls settings l j rt))
      (λ next.
        iterations-Quits settings next earlier i later turn.1 n
          (iterate-kept settings Sound (kept-Sound settings) polled-Sound l j rt k) h
          (omega (arith, b, iterate-polls settings l j rt)))

-- A request to stop that is made before a turn of the loop ends it there: of a sound process, whatever
-- happens before, the loop is over by that turn, and it has polled at most once in each turn before.
pub stop_ends_loop :
    (settings : WorkerSettings) (clock : ℕ) (earlier : List Iteration) (i : Iteration)
    (later : List Iteration) (rt : WorkerRuntime)
    → Sound rt
    → has_request i.before ≡ true
    → Over (loop settings clock (earlier ++ (i ∷ later)) rt).0
      × ((loop settings clock (earlier ++ (i ∷ later)) rt).1.polls ≤ rt.polls + length earlier)
unfolding loop Quits
stop_ends_loop settings clock earlier i later rt k h =
    iterations-Quits settings
      (record { poll = settings.poll_interval; next_recovery = clock; failure_delay = seconds 1 })
      earlier i later rt (rt.polls + length earlier) k h (omega arith)
