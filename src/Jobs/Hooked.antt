-- ===== src/Jobs/Hooked.antt =====
-- What an operation of persistence/jobs.py that returns has done with its hook.
use mervio.Json.Stored.{check_jsonb}
use mervio.Jobs.Schedule.{backoff_seconds, check_lease_seconds, pick_first, comes_before}
use mervio.Jobs.Steps.Attempt.{explain_lost-err}
use mervio.Jobs.Lineage.{some-eq}
use mervio.Tenancy.{run_jobs}
use mervio.Jobs.Payload.{validate_payload}
use mervio.Error.{ok, >>=-eq-ok, guard, ok-injective, value_error}
use mervio.Json.{Fields}
use mervio.Jobs.Attempt.{
  mark_succeeded, end_returned, update_attempt, end_attempt, mark_failed, requeue, retry_later,
  Publish, Requeue, Failure, explain_lost, error_code, attempt_settings, holder_for, succeeded_row,
  will_retry, owns, check_timeout, optional_code, requeued_row, optional_error,
}
use mervio.Jobs.Record.{JobRecord}
use mervio.Jobs.Guard.{Instant, update_rows}
use mervio.Prelude.{
  List, Option, ◌≡◌, String, some, ℕ, ◌∷◌, ap, leb, Bool-cases, [], ◌*◌, inl, none, inr, Bool,
}
use mervio.Jobs.Queue.{
  commit_row, claim_candidate, claim_returned, Claim, no_settings, is_row, claimed_row,
  claim_next_job, check_worker_id, is_candidate,
}
use mervio.Database.{Hook, Session, Db, organization_of, open_transaction}

-- The trail after is what the hook has made of the row that is returned and of the trail before.
abbrev pub Hooked : Hook → JobRecord → Db → Db → Type 0
Hooked hook row db after = hook row db.audit ≡ ok after.audit

commit_row-Hooked :
    (hook : Hook) (rows : List JobRecord) (row : JobRecord) (db : Db) {r : JobRecord} {after : Db}
    → commit_row hook rows row db ≡ ok (r, after)
    → Hooked hook r db after
unfolding commit_row
commit_row-Hooked hook rows row db h =
    let (trail, done, e) = >>=-eq-ok (hook row db.audit) _ h in
    rw
      (
        ← ap (λ (p : JobRecord × Db). p.0) (ok-injective e),
        ← ap (λ (p : JobRecord × Db). p.1.audit) (ok-injective e),
      )
      done

module _ (session : Session) (i : Instant) (hook : Hook) where
  end_returned-Hooked :
      (job : JobRecord) (holder : Option String) (rows returned : List JobRecord) (db : Db)
      {r : JobRecord} {after : Db}
      → end_returned session hook job holder rows returned db ≡ ok (r, after)
      → Hooked hook r db after
  unfolding end_returned
  end_returned-Hooked job holder rows [] db h =
      let (row, found, rest) = >>=-eq-ok (explain_lost session job holder db) _ h in
      absurd (explain_lost-err session job holder db found)
  end_returned-Hooked job holder rows (row ∷ rest) db h = commit_row-Hooked hook rows row db h

  update_attempt-Hooked :
      (job : JobRecord) (holder : Option String) (set : JobRecord → JobRecord) (db : Db)
      {r : JobRecord} {after : Db}
      → update_attempt session i hook job holder set db ≡ ok (r, after)
      → Hooked hook r db after
  unfolding update_attempt
  update_attempt-Hooked job holder set db h =
      let ((rows, returned), wrote, rest) =
        >>=-eq-ok
          (update_rows i (attempt_settings job holder) (owns (organization_of session) job holder)
            set db.jobs)
          _ h in
      end_returned-Hooked job holder rows returned db rest

  end_attempt-Hooked :
      (job : JobRecord) (holder : Option String) (set : JobRecord → JobRecord) (db : Db)
      {r : JobRecord} {after : Db}
      → end_attempt session i hook job holder set db ≡ ok (r, after)
      → Hooked hook r db after
  unfolding end_attempt
  end_attempt-Hooked job holder set db h =
      let (_, _, rest) = >>=-eq-ok (open_transaction db session run_jobs) _ h in
      update_attempt-Hooked job holder set db rest

  pub mark_succeeded-Hooked :
      (job : JobRecord) (result : Fields) (worker_id : Option String) (now : Option ℕ) (db : Db)
      {r : JobRecord} {after : Db}
      → mark_succeeded session i hook job result worker_id now db ≡ ok (r, after)
      → Hooked hook r db after
  unfolding mark_succeeded
  mark_succeeded-Hooked job result worker_id now db h =
      let (document, _, h1) = >>=-eq-ok (validate_payload result) _ h in
      let (_, _, h2) = >>=-eq-ok (open_transaction db session run_jobs) _ h1 in
      let (_, _, rest) = >>=-eq-ok (check_jsonb document) _ h2 in
      update_attempt-Hooked job (holder_for worker_id job) (succeeded_row i now document) db rest

  pub requeue-Hooked :
      (publish : Publish) (job : JobRecord) (args : Requeue) (db : Db) {r : JobRecord} {after : Db}
      → requeue publish session i hook job args db ≡ ok (r, after)
      → Hooked hook r db after
  unfolding requeue
  requeue-Hooked publish job args db h =
      let (_, _, h1) = >>=-eq-ok (guard (leb args.delay_seconds (86400 * 7)) value_error) _ h in
      let (_, _, h2) = >>=-eq-ok (open_transaction db session run_jobs) _ h1 in
      let (_, _, h3) = >>=-eq-ok (check_timeout args.timeout_ms) _ h2 in
      let (code, _, h4) = >>=-eq-ok (optional_code publish args.code) _ h3 in
      update_attempt-Hooked job (holder_for args.worker_id job)
        (requeued_row i args.now args.delay_seconds code (optional_error publish args.error)) db h4

  pub mark_failed-Hooked :
      (publish : Publish) (job : JobRecord) (failure : Failure) (db : Db) {r : JobRecord}
      {after : Db}
      → mark_failed publish session i hook job failure db ≡ ok (r, after)
      → Hooked hook r db after
  unfolding mark_failed retry_later
  mark_failed-Hooked publish job failure db h =
      let (code, _, h1) = >>=-eq-ok (error_code publish failure.code) _ h in
      elim (Bool-cases (will_retry job failure)) [
        | inl e ↦
            let (delay, _, h2) =
              >>=-eq-ok (backoff_seconds job.attempts failure.backoff_base failure.backoff_cap) _
                (rw e at h1) in
            requeue-Hooked publish job _ db h2
        | inr e ↦ end_attempt-Hooked job (holder_for failure.worker_id job) _ db (rw e at h1)
      ]

  claim_returned-Hooked :
      (rows returned : List JobRecord) (db : Db) {r : JobRecord} {after : Db}
      → claim_returned hook rows returned db ≡ ok (some r, after)
      → Hooked hook r db after
  unfolding claim_returned
  claim_returned-Hooked rows [] db h = cc h
  claim_returned-Hooked rows (row ∷ rest) db h =
      let ((claimed, mid), done, e) = >>=-eq-ok (commit_row hook rows row db) _ h in
      let one = commit_row-Hooked hook rows row db done in
      rw
        (
          ← some-eq (ap (λ (p : Option JobRecord × Db). p.0) (ok-injective e)),
          ← ap (λ (p : Option JobRecord × Db). p.1.audit) (ok-injective e),
        )
        one

  claim_candidate-Hooked :
      (claim : Claim) (candidate : Option JobRecord) (db : Db) {r : JobRecord} {after : Db}
      → claim_candidate (organization_of session) i hook claim candidate db ≡ ok (some r, after)
      → Hooked hook r db after
  unfolding claim_candidate
  claim_candidate-Hooked claim none db h = cc h
  claim_candidate-Hooked claim (some candidate) db h =
      let ((rows, returned), _, rest) =
        >>=-eq-ok
          (update_rows i no_settings (is_row (organization_of session) candidate.id)
            (claimed_row i claim) db.jobs)
          _ h in
      claim_returned-Hooked rows returned db rest

  pub claim_next_job-Hooked :
      (locked : ℕ → Bool) (claim : Claim) (db : Db) {r : JobRecord} {after : Db}
      → claim_next_job locked session i hook claim db ≡ ok (some r, after)
      → Hooked hook r db after
  unfolding claim_next_job
  claim_next_job-Hooked locked claim db h =
      let (_, _, h1) = >>=-eq-ok (check_worker_id claim.worker_id) _ h in
      let (_, _, h2) = >>=-eq-ok (check_lease_seconds claim.lease_seconds) _ h1 in
      let (_, _, h3) = >>=-eq-ok (open_transaction db session run_jobs) _ h2 in
      claim_candidate-Hooked claim
        (pick_first comes_before (is_candidate locked (organization_of session) i claim) db.jobs) db
        h3
