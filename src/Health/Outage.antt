-- ===== src/Health/Outage.antt =====
-- The health that a reporter publishes over any sequence of its updates.
use mervio.Prelude.{[], ◌∷◌}
use mervio.Health.Judged.{evaluate-Alive}
use mervio.Jobs.Guard.{is_some}
use mervio.Prelude.{
  ◌≡◌, ℕ, ◌+◌, ◌↔◌, some, arith, true, List, Bool, All, String, false, ◌<◌, Bool-cases, inl, refl,
  ◌≤◌, inr,
}
use mervio.Health.{
  HealthSnapshot, WorkerState, degraded, starting, ready, busy, evaluate, draining, stopped, forced,
}
use mervio.Health.Reporter.{
  with_database, report, Report, with_state, update, beat, sets, Tick, set_state, database_ok,
  HealthReporter, database_unavailable, beats, job_finished, database_answers, database_fails,
  job_ends, new_reporter, reports,
}

-- The beginning of an outage is published exactly while the state is DEGRADED.
abbrev pub Marked : HealthSnapshot → Type 0
Marked s = (s.state ≡ degraded) ↔ (is_some s.degraded_since ≡ true)

with_state-Marked : (w : WorkerState) (s : HealthSnapshot) (now : ℕ) → Marked (with_state w s now)
unfolding with_state
with_state-Marked degraded s now = ((λ e. refl), (λ e. refl))
with_state-Marked starting s now = ((λ e. cc), (λ e. cc))
with_state-Marked ready s now = ((λ e. cc), (λ e. cc))
with_state-Marked busy s now = ((λ e. cc), (λ e. cc))
with_state-Marked draining s now = ((λ e. cc), (λ e. cc))
with_state-Marked stopped s now = ((λ e. cc), (λ e. cc))
with_state-Marked forced s now = ((λ e. cc), (λ e. cc))

with_database-Marked : (s : HealthSnapshot) (now : ℕ) → Marked s → Marked (with_database s now)
unfolding with_database
with_database-Marked s now m = go s.state refl
  where
    go : (w : WorkerState) → s.state ≡ w → Marked (with_database s now)
    go degraded e = rw e ((λ k. cc), (λ k. cc))
    go starting e = rw e (rw e at m)
    go ready e = rw e (rw e at m)
    go busy e = rw e (rw e at m)
    go draining e = rw e (rw e at m)
    go stopped e = rw e (rw e at m)
    go forced e = rw e (rw e at m)

-- What one call publishes: the changes of the call, stamped.
abbrev pub changed : Report → HealthSnapshot → ℕ → HealthSnapshot
changed beats s now = s
changed (sets w) s now = with_state w s now
changed database_answers s now = with_database s now
changed database_fails s now = with_state degraded s now
changed job_ends s now = record s { jobs_processed = s.jobs_processed + 1 }

update-snapshot :
    (changes : HealthSnapshot → ℕ → HealthSnapshot) (t : Tick) (r : HealthReporter)
    → (update changes t r).snapshot ≡ record (changes r.snapshot t.now) { updated_at = t.now }
unfolding update
update-snapshot changes t r = ground arith

pub report-snapshot :
    (c : Report) (t : Tick) (r : HealthReporter)
    → (report c t r).snapshot ≡ record (changed c r.snapshot t.now) { updated_at = t.now }
unfolding report beat set_state database_ok database_unavailable job_finished
report-snapshot beats t r = update-snapshot (λ s n. s) t r
report-snapshot (sets w) t r = update-snapshot (with_state w) t r
report-snapshot database_answers t r = update-snapshot with_database t r
report-snapshot database_fails t r = update-snapshot (with_state degraded) t r
report-snapshot job_ends t r =
    update-snapshot (λ s n. record s { jobs_processed = s.jobs_processed + 1 }) t r

changed-Marked : (c : Report) (s : HealthSnapshot) (now : ℕ) → Marked s → Marked (changed c s now)
changed-Marked beats s now m = m
changed-Marked (sets w) s now m = with_state-Marked w s now
changed-Marked database_answers s now m = with_database-Marked s now m
changed-Marked database_fails s now m = with_state-Marked degraded s now
changed-Marked job_ends s now m = m

reports-Marked :
    (cs : List (Report × Tick)) (r : HealthReporter)
    → Marked r.snapshot
    → Marked (reports cs r).snapshot
unfolding reports
reports-Marked [] r m = m
reports-Marked ((c, t) ∷ cs) r m =
    reports-Marked cs (report c t r)
      (rw (report-snapshot c t r) (changed-Marked c r.snapshot t.now m))

-- Whatever a worker reports, and whichever of its writes fail, the document that it holds tells when an
-- outage began exactly while its state is DEGRADED.
pub degraded_since_marks :
    (has_path : Bool) (worker_id : String) (pid started : ℕ) (cs : List (Report × Tick))
    → Marked (reports cs (new_reporter has_path worker_id pid started)).snapshot
unfolding new_reporter
degraded_since_marks has_path worker_id pid started cs =
    reports-Marked cs (new_reporter has_path worker_id pid started) ((λ e. cc), (λ e. cc))

-- The reports of a worker whose database stays away.
abbrev pub is_away : Report → Bool
is_away beats = true
is_away (sets degraded) = true
is_away (sets _) = false
is_away database_answers = false
is_away database_fails = true
is_away job_ends = true

abbrev pub Since : ℕ → HealthSnapshot → Type 0
Since since s = (s.state ≡ degraded) × (s.degraded_since ≡ some since)

changed-Since :
    (c : Report) (s : HealthSnapshot) (now since : ℕ)
    → is_away c ≡ true
    → Since since s
    → Since since (changed c s now)
unfolding with_state
changed-Since beats s now since a h = h
changed-Since (sets degraded) s now since a h = (refl, rw h.1 refl)
changed-Since (sets starting) s now since a h = cc
changed-Since (sets ready) s now since a h = cc
changed-Since (sets busy) s now since a h = cc
changed-Since (sets draining) s now since a h = cc
changed-Since (sets stopped) s now since a h = cc
changed-Since (sets forced) s now since a h = cc
changed-Since database_answers s now since a h = cc
changed-Since database_fails s now since a h = (refl, rw h.1 refl)
changed-Since job_ends s now since a h = h

reports-Since :
    (cs : List (Report × Tick)) (r : HealthReporter) (since : ℕ)
    → All (λ c. is_away c.0 ≡ true) cs
    → Since since r.snapshot
    → Since since (reports cs r).snapshot
unfolding reports
reports-Since [] r since a h = h
reports-Since ((c, t) ∷ cs) r since a h =
    reports-Since cs (report c t r) since a.1
      (rw (report-snapshot c t r) (changed-Since c r.snapshot t.now since a.0 h))

-- A worker whose outage began longer ago than the grace is judged not live, however often it has beaten,
-- lost the database again or ended a job since, so that no report but one of a database that answers
-- or of another state hides the outage.
pub outage_noticed :
    (cs : List (Report × Tick)) (r : HealthReporter) (since now max_age grace : ℕ)
    → r.snapshot.state ≡ degraded
    → r.snapshot.degraded_since ≡ some since
    → All (λ c. is_away c.0 ≡ true) cs
    → since + grace < now
    → (evaluate (reports cs r).snapshot now max_age grace).live ≡ false
outage_noticed cs r since now max_age grace d e a late =
    let (still, marked) = reports-Since cs r since a (d, e) in
    elim (Bool-cases (evaluate (reports cs r).snapshot now max_age grace).live) [
      | inl live ↦
          let alive = (evaluate-Alive (reports cs r).snapshot now max_age grace).0 live in
          let within : now ≤ since + grace = rw marked at (alive.tolerated still) in
          absurd (omega (arith, within, late))
      | inr not_live ↦ not_live
    ]
