-- ===== src/Process/Patience.antt =====
-- How long `_connect` tries.
use mervio.Process.Connecting.{failing, connect, first_delay, aborted, on_request}
use mervio.Process.{WorkerSettings, WorkerRuntime, deliver, exit_ok}
use mervio.Prelude.{
  ℕ, List, Bool, ◌∷◌, ◌≤◌, ◌+◌, ◌≡◌, [], false, ◌⊎◌, length, arith, ◌*◌, inl, ltb, inr, refl,
  if◌then◌else◌, true, ◌<◌, ◌≢◌,
}
use mervio.Process.Connecting.{
  connect_from, on_opening, Opening, Attempt, Connection, next_delay, pending, opened,
  schema_not_ready, unsafe_configuration,
}

-- The waits take their time: the clock that a turn reads is past that of the turn before by its delay.
abbrev pub Paced : ℕ → ℕ → List Attempt → Type 0
Paced clock delay [] = Unit
Paced clock delay (a ∷ turns) = (clock ≤ a.clock) × Paced (a.clock + delay) (next_delay delay) turns

on_opening-pending :
    (o : Opening) (late : Bool) (tried waited : WorkerRuntime) (later : Connection × WorkerRuntime)
    → (on_opening o late tried waited later).0 ≡ pending
    → (late ≡ false) × (later.0 ≡ pending)
unfolding on_opening
on_opening-pending opened late tried waited later h = cc
on_opening-pending schema_not_ready late tried waited later h = cc
on_opening-pending unsafe_configuration late tried waited later h = cc
on_opening-pending (failing false) late tried waited later h = cc
on_opening-pending (failing true) late tried waited later h = ground arith

tested-pending :
    (b : Bool) (tested : WorkerRuntime) (rest : Connection × WorkerRuntime)
    → (if b then (aborted exit_ok on_request, tested) else rest).0 ≡ pending
    → rest.0 ≡ pending
tested-pending true tested rest h = cc
tested-pending false tested rest h = h

connect_from-pending :
    (settings : WorkerSettings) (deadline delay clock : ℕ) (turns : List Attempt)
    (rt : WorkerRuntime)
    → 500000 ≤ delay
    → Paced clock delay turns
    → (connect_from settings deadline delay turns rt).0 ≡ pending
    → (turns ≡ []) ⊎ (clock + length turns * 500000 ≤ deadline)
unfolding connect_from
connect_from-pending settings deadline delay clock [] rt d p h = inl refl
connect_from-pending settings deadline delay clock (a ∷ turns) rt d p h =
    let tested = deliver settings a.before rt in
    let tried = deliver settings a.meanwhile tested in
    let waited = deliver settings a.waiting tried in
    let later = connect_from settings deadline (next_delay delay) turns waited in
    let late = ltb deadline (a.clock + delay) in
    let (early, rest) =
      on_opening-pending a.opening late tried waited later
        (tested-pending tested.stop_set tested (on_opening a.opening late tried waited later) h) in
    let in_time : a.clock + delay ≤ deadline = ground (arith, early) in
    inr
      (elim (connect_from-pending settings deadline (next_delay delay) (a.clock + delay) turns
        waited (omega (arith, d)) p.1 rest) [
          | inl none_left ↦ rw none_left (omega (arith, p.0, d, in_time))
          | inr more ↦ omega (arith, p.0, d, more)
        ])

-- `_connect` gives up or succeeds in time: if each wait takes its delay, the first half a second, each
-- doubled up to five, then as many tries as there are half seconds in the startup timeout, and one more,
-- are enough for it to return or raise, whatever fails and whatever signals come.
pub connect_returns :
    (settings : WorkerSettings) (started : ℕ) (turns : List Attempt) (rt : WorkerRuntime)
    → Paced started first_delay turns
    → settings.startup_timeout < length turns * first_delay
    → (connect settings started turns rt).0 ≢ pending
unfolding connect
connect_returns settings started turns rt p enough h =
    elim (connect_from-pending settings (started + settings.startup_timeout) first_delay started
      turns rt (omega arith) p h) [
        | inl none_left ↦
            let nothing : length turns ≡ 0 = rw none_left refl in omega (arith, enough, nothing)
        | inr short ↦ omega (arith, enough, short)
      ]
