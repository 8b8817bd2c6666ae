-- ===== src/Health/Judged.antt =====
-- What the verdict of the health file says of the worker.
use mervio.Jobs.Queue.{coalesce}
use mervio.Prelude.{ℕ, Bool, ◌≤◌, true, ◌≡◌, false, ◌+◌, arith, ◌&&◌, ◌↔◌, refl}
use mervio.Health.{
  HealthSnapshot, WorkerState, by_state, evaluate, clock_skew, stopped, degraded, ready, busy,
  forced, starting, draining,
}

abbrev pub is_ended : WorkerState → Bool
is_ended stopped = true
is_ended forced = true
is_ended _ = false

abbrev pub is_working : WorkerState → Bool
is_working ready = true
is_working busy = true
is_working _ = false

-- A recent document of a worker that has not ended, and whose database has not been away for longer
-- than the tolerance.
pub record Alive (s : HealthSnapshot) (now max_age grace : ℕ) : Type 0 where
  pub recent : now ≤ s.updated_at + max_age
  pub not_ahead : s.updated_at ≤ now + clock_skew
  pub running_on : is_ended s.state ≡ false
  pub tolerated : s.state ≡ degraded → now ≤ coalesce s.degraded_since s.updated_at + grace

module _ (s : HealthSnapshot) (now max_age grace : ℕ) where
  by_state-live :
      (w : WorkerState)
      → (by_state s now grace w).live ≡ true
      → (is_ended w ≡ false) × (w ≡ degraded → now ≤ coalesce s.degraded_since s.updated_at + grace)
  unfolding by_state
  by_state-live starting h = (refl, λ e. cc)
  by_state-live ready h = (refl, λ e. cc)
  by_state-live busy h = (refl, λ e. cc)
  by_state-live draining h = (refl, λ e. cc)
  by_state-live degraded h = (refl, λ e. ground arith)
  by_state-live stopped h = cc
  by_state-live forced h = cc

  live_by_state :
      (w : WorkerState)
      → is_ended w ≡ false
      → (w ≡ degraded → now ≤ coalesce s.degraded_since s.updated_at + grace)
      → (by_state s now grace w).live ≡ true
  unfolding by_state
  live_by_state degraded e t = ground (arith, t refl)
  live_by_state starting e t = refl
  live_by_state ready e t = refl
  live_by_state busy e t = refl
  live_by_state draining e t = refl
  live_by_state stopped e t = cc
  live_by_state forced e t = cc

  by_state-is_ready : (w : WorkerState) → (by_state s now grace w).is_ready ≡ is_working w
  unfolding by_state
  by_state-is_ready w = ground arith

  evaluate-recent :
      (evaluate s now max_age grace).live ≡ true
      → (now ≤ s.updated_at + max_age)
        × (s.updated_at ≤ now + clock_skew)
        × ((by_state s now grace s.state).live ≡ true)
  unfolding evaluate
  evaluate-recent h = ground arith

  evaluate-still :
      now ≤ s.updated_at + max_age
      → s.updated_at ≤ now + clock_skew
      → (by_state s now grace s.state).live ≡ true
      → (evaluate s now max_age grace).live ≡ true
  unfolding evaluate
  evaluate-still fresh level alive = ground arith

  -- The verdict is live exactly for a document that is neither too old nor more than five seconds
  -- ahead, whose worker has not ended, and whose outage, if it is degraded, began within the grace.
  pub evaluate-Alive : ((evaluate s now max_age grace).live ≡ true) ↔ Alive s now max_age grace
  unfolding evaluate
  evaluate-Alive = (
    (λ h.
        let (fresh, level, alive) = evaluate-recent h in
        let (on, since) = by_state-live s.state alive in
        record { recent = fresh; not_ahead = level; running_on = on; tolerated = since }),
    (λ a. evaluate-still a.recent a.not_ahead (live_by_state s.state a.running_on a.tolerated)),
  )

  -- The verdict is ready exactly when it is live and the worker is ready for work or at work.
  pub evaluate-is_ready :
      (evaluate s now max_age grace).is_ready
      ≡ ((evaluate s now max_age grace).live && is_working s.state)
  unfolding evaluate by_state
  evaluate-is_ready = ground arith
