-- ===== src/Health/Published.antt =====
-- The health file as the reporter writes it and `check_health` reads it.
use mervio.Health.Outage.{changed, report-snapshot}
use mervio.Health.{HealthSnapshot, health_schema_version, degraded, evaluate, WorkerState}
use mervio.Prelude.{
  ℕ, List, Option, ◌≡◌, String, true, [], ◌∷◌, some, ◌≤◌, arith, ◌∙◌, none, refl, ◌+◌, inr,
}
use mervio.Health.Reading.{
  check_health, read_health, Contents, not_there, bytes, max_health_file_bytes,
  check_document-to_document,
}
use mervio.Health.Reading.{to_document, Document}
use mervio.Health.Reporter.{
  reports, new_reporter, report, update, with_state, with_database, beat, Report, Tick, set_state,
  HealthReporter, database_ok, sets, database_unavailable, job_finished, beats, database_answers,
  database_fails, job_ends,
}

-- The file after `write_health`: `json.dumps` gives it its size, and `json.loads` gives the document
-- back.
abbrev pub contents_of : (Document → ℕ) → Option HealthSnapshot → Contents
contents_of encoded_size none = not_there
contents_of encoded_size (some s) = bytes (encoded_size (to_document s)) (some (to_document s))

with_state-version :
    (w : WorkerState) (s : HealthSnapshot) (now : ℕ) → (with_state w s now).version ≡ s.version
unfolding with_state
with_state-version w s now = ground arith

changed-version :
    (c : Report) (s : HealthSnapshot) (now : ℕ) → (changed c s now).version ≡ s.version
unfolding with_state with_database
changed-version beats s now = refl
changed-version (sets w) s now = with_state-version w s now
changed-version database_answers s now = ground arith
changed-version database_fails s now = refl
changed-version job_ends s now = refl

report-version :
    (c : Report) (t : Tick) (r : HealthReporter)
    → (report c t r).snapshot.version ≡ r.snapshot.version
report-version c t r = rw (report-snapshot c t r) (changed-version c r.snapshot t.now)

reports-version :
    (cs : List (Report × Tick)) (r : HealthReporter)
    → (reports cs r).snapshot.version ≡ r.snapshot.version
unfolding reports
reports-version [] r = refl
reports-version ((c, t) ∷ cs) r = reports-version cs (report c t r) ∙ report-version c t r

update-file :
    (changes : HealthSnapshot → ℕ → HealthSnapshot) (t : Tick) (r : HealthReporter)
    → r.has_path ≡ true
    → t.written ≡ true
    → (update changes t r).file ≡ some (update changes t r).snapshot
unfolding update
update-file changes t r p w = ground arith

report-file :
    (c : Report) (t : Tick) (r : HealthReporter)
    → r.has_path ≡ true
    → t.written ≡ true
    → (report c t r).file ≡ some (report c t r).snapshot
unfolding report beat set_state database_ok database_unavailable job_finished
report-file beats t r p w = update-file (λ s n. s) t r p w
report-file (sets v) t r p w = update-file (with_state v) t r p w
report-file database_answers t r p w = update-file with_database t r p w
report-file database_fails t r p w = update-file (with_state degraded) t r p w
report-file job_ends t r p w =
    update-file (λ s n. record s { jobs_processed = s.jobs_processed + 1 }) t r p w

report-has_path :
    (c : Report) (t : Tick) (r : HealthReporter) → (report c t r).has_path ≡ r.has_path
unfolding report beat set_state database_ok database_unavailable job_finished update
report-has_path beats t r = ground arith
report-has_path (sets v) t r = ground arith
report-has_path database_answers t r = ground arith
report-has_path database_fails t r = ground arith
report-has_path job_ends t r = ground arith

reports-has_path :
    (cs : List (Report × Tick)) (r : HealthReporter) → (reports cs r).has_path ≡ r.has_path
unfolding reports
reports-has_path [] r = refl
reports-has_path ((c, t) ∷ cs) r = reports-has_path cs (report c t r) ∙ report-has_path c t r

read_health-file :
    (size : ℕ) (s : HealthSnapshot)
    → s.version ≡ health_schema_version
    → size ≤ max_health_file_bytes
    → read_health (bytes size (some (to_document s))) ≡ inr s
unfolding read_health
read_health-file size s v fits = ground (arith, check_document-to_document s v)

check_health-file :
    (encoded_size : Document → ℕ) (s : HealthSnapshot) (now max_age grace : ℕ)
    → s.version ≡ health_schema_version
    → encoded_size (to_document s) ≤ max_health_file_bytes
    → check_health (some (contents_of encoded_size (some s))) now max_age grace
      ≡ evaluate s now max_age grace
unfolding check_health
check_health-file encoded_size s now max_age grace v fits =
    rw (check_health, read_health-file (encoded_size (to_document s)) s v fits) refl

-- What the health check reads is what the worker holds: after any reports by a worker with a health
-- file, the last of which was written, the verdict that the check gives on the file is that on the
-- snapshot of the worker, if the encoded document is within the 4096 bytes that the check reads.
pub check_health-reports :
    (encoded_size : Document → ℕ) (worker_id : String) (pid started : ℕ) (cs : List (Report × Tick))
    (c : Report) (t : Tick) (now max_age grace : ℕ)
    → t.written ≡ true
    → encoded_size
        (to_document (report c t (reports cs (new_reporter true worker_id pid started))).snapshot)
      ≤ max_health_file_bytes
    → check_health
        (some (
          contents_of encoded_size
            (report c t (reports cs (new_reporter true worker_id pid started))).file))
        now
        max_age
        grace
      ≡ evaluate
          (report c t (reports cs (new_reporter true worker_id pid started))).snapshot
          now
          max_age
          grace
unfolding new_reporter
check_health-reports encoded_size worker_id pid started cs c t now max_age grace w fits =
    let r = new_reporter true worker_id pid started in
    let before = reports cs r in
    rw (report-file c t before (reports-has_path cs r) w) (
      check_health-file encoded_size (report c t before).snapshot now max_age grace
        (report-version c t before ∙ reports-version cs r) fits)
