-- ===== src/Health/Tests.antt =====
-- The theorems on the health file, on a small run.
use mervio.Health.Judged.{Alive, is_working, evaluate-is_ready, evaluate-Alive}
use mervio.Health.Published.{contents_of, check_health-reports}
use mervio.Jobs.Guard.{seconds}
use mervio.Health.Outage.{Marked, degraded_since_marks, outage_noticed}
use mervio.Health.Reading.{check_health}
use mervio.Prelude.{List, ℕ, some, true, ◌≡◌, none, ◌↔◌, ◌∷◌, ◌&&◌, arith, refl, false, []}
use mervio.Health.Reporter.{
  HealthReporter, reports, Report, new_reporter, report, Tick, beat, database_answers, database_ok,
  job_ends, set_state, sets, database_unavailable, database_fails, update, with_state,
  with_database, beats,
}
use mervio.Health.{evaluate, HealthSnapshot, busy, ready}

abbrev ticking : ℕ → Tick
ticking n = record { now = seconds n; written = true }

abbrev small_run : List (Report × Tick)
small_run =
    (database_answers, ticking 1)
    ∷ (sets ready, ticking 2)
    ∷ (database_fails, record { now = seconds 3; written = false })
    ∷ (beats, ticking 4)
    ∷ []

degraded_since_marks_example : Marked (reports small_run (new_reporter true "host/1" 42 0)).snapshot
degraded_since_marks_example = degraded_since_marks true "host/1" 42 0 small_run

abbrev lost_database : HealthReporter
lost_database = reports small_run (new_reporter true "host/1" 42 0)

outage_noticed_example :
    (evaluate
      (reports ((beats, ticking 60) ∷ []) lost_database).snapshot
      (seconds 61)
      (seconds 30)
      (seconds 10)).live
    ≡ false
unfolding reports report beat database_ok set_state database_unavailable update with_state
    with_database new_reporter
outage_noticed_example =
    outage_noticed ((beats, ticking 60) ∷ []) lost_database (seconds 3) (seconds 61) (seconds 30)
      (seconds 10) refl refl (refl, tt) (omega arith)

abbrev calm : HealthSnapshot
calm = record {
  version = 1;
  state = busy;
  updated_at = seconds 100;
  started_at = 0;
  pid = 42;
  worker_id = "host/1";
  jobs_processed = 3;
  last_database_ok_at = some (seconds 99);
  degraded_since = none;
}

evaluate-Alive_example :
    ((evaluate calm (seconds 110) (seconds 30) (seconds 10)).live ≡ true)
    ↔ Alive calm (seconds 110) (seconds 30) (seconds 10)
evaluate-Alive_example = evaluate-Alive calm (seconds 110) (seconds 30) (seconds 10)

evaluate-is_ready_example :
    (evaluate calm (seconds 110) (seconds 30) (seconds 10)).is_ready
    ≡ ((evaluate calm (seconds 110) (seconds 30) (seconds 10)).live && is_working busy)
evaluate-is_ready_example = evaluate-is_ready calm (seconds 110) (seconds 30) (seconds 10)

check_health-reports_example :
    check_health
      (some (
        contents_of
          (λ d. 300)
          (report job_ends (ticking 9) (reports small_run (new_reporter true "host/1" 42 0))).file))
      (seconds 10)
      (seconds 30)
      (seconds 10)
    ≡ evaluate
        (report job_ends (ticking 9) (reports small_run (new_reporter true "host/1" 42 0))).snapshot
        (seconds 10)
        (seconds 30)
        (seconds 10)
check_health-reports_example =
    check_health-reports (λ d. 300) "host/1" 42 0 small_run job_ends (ticking 9) (seconds 10)
      (seconds 30) (seconds 10) refl (omega arith)
