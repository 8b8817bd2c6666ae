-- ===== src/Jobs/Steps/Queue.antt =====
-- Enqueueing, claiming and cancelling, as changes of the table.
use mervio.Jobs.Machine.{by_cancel, by_claim, by_enqueue}
use mervio.Json.Stored.{check_jsonb}
use mervio.Jobs.Steps.{is_row-owner, commit_row-ok, stays, result-jobs, one-update}
use mervio.Jobs.Payload.{validate_payload}
use mervio.Tenancy.{run_jobs}
use mervio.Jobs.Schedule.{check_lease_seconds, pick_first, comes_before}
use mervio.Jobs.Table.{Table, added}
use mervio.Error.{
  ok, >>=-eq-ok, guard, value_error, database, check_violation, unique_violation, guard-eq-ok,
}
use mervio.Jobs.Record.{JobRecord, queued, priority_in_range}
use mervio.Jobs.Guard.{Instant, update_rows, is_some, guard_insert, row_checks}
use mervio.Prelude.{
  ℕ, List, Option, ◌≡◌, true, Bool, arith, ◌∷◌, inl, inr, [], Bool-cases, leb, &&-both, ◌⊎◌, some,
  refl, none, ◌∙◌, false, not, ◌&&◌, All, ◌≢◌, Option-cases, ==_iff,
}
use mervio.Jobs.Queue.{
  commit_row, is_row, fetch_job, is_queued_row, cancel_returned, claim_candidate, claim_returned,
  cancel_job, no_settings, Claim, cancelled_row, claimed_row, insert_or_replay, enqueue_job,
  find_row, insert_job, claim_next_job, check_worker_id, new_job, Request, has_id, is_candidate,
  enqueue_permission, same_key, check_store,
}
use mervio.Database.{Session, Db, Hook, organization_of, open_transaction}

is_queued_row-owner :
    (organization id : ℕ) (row : JobRecord)
    → is_queued_row organization id row ≡ true
    → row.organization_id ≡ organization
is_queued_row-owner organization id row h = is_row-owner organization id row (&&-both _ _ h).0

module _ (session : Session) (i : Instant) (hook : Hook) where
  cancel_returned-jobs :
      (id : ℕ) (rows returned : List JobRecord) (db : Db) {r : JobRecord} {after : Db}
      → cancel_returned session hook id rows returned db ≡ ok (r, after)
      → after.jobs ≡ rows
  unfolding cancel_returned
  cancel_returned-jobs id rows [] db h =
      let (row, found, rest) = >>=-eq-ok (fetch_job session id db) _ h in cc rest
  cancel_returned-jobs id rows (row ∷ rest) db h = (commit_row-ok hook rows row db h).1

  pub cancel_job-Table :
      (id : ℕ) (db : Db) {r : JobRecord} {after : Db}
      → cancel_job session i hook id db ≡ ok (r, after)
      → Table (organization_of session) by_cancel db.jobs after.jobs
  unfolding cancel_job cancelled_row
  cancel_job-Table id db h =
      let (_, _, h1) = >>=-eq-ok (open_transaction db session run_jobs) _ h in
      let test = is_queued_row (organization_of session) id in
      let ((rows, returned), wrote, rest) =
        >>=-eq-ok (update_rows i no_settings test (cancelled_row i) db.jobs) _ h1 in
      rw (cancel_returned-jobs id rows returned db rest) (
        one-update (organization_of session) by_cancel i no_settings test (cancelled_row i) db.jobs
          (is_queued_row-owner (organization_of session) id) (λ row t. refl) wrote)

  claim_returned-jobs :
      (rows returned : List JobRecord) (db : Db) {r : Option JobRecord} {after : Db}
      → claim_returned hook rows returned db ≡ ok (r, after)
      → (after.jobs ≡ rows) ⊎ ((returned ≡ []) × (after.jobs ≡ db.jobs))
  unfolding claim_returned
  claim_returned-jobs rows [] db h = inr (refl, result-jobs h)
  claim_returned-jobs rows (row ∷ rest) db h =
      let ((claimed, mid), done, e) = >>=-eq-ok (commit_row hook rows row db) _ h in
      inl (result-jobs e ∙ (commit_row-ok hook rows row db done).1)

  claim_candidate-Table :
      (claim : Claim) (candidate : Option JobRecord) (db : Db) {r : Option JobRecord} {after : Db}
      → claim_candidate (organization_of session) i hook claim candidate db ≡ ok (r, after)
      → Table (organization_of session) by_claim db.jobs after.jobs
  unfolding claim_candidate claimed_row
  claim_candidate-Table claim none db {after = after} h =
      stays (organization_of session) by_claim db.jobs after.jobs (result-jobs h)
  claim_candidate-Table claim (some candidate) db {after = after} h =
      let test = is_row (organization_of session) candidate.id in
      let ((rows, returned), wrote, rest) =
        >>=-eq-ok (update_rows i no_settings test (claimed_row i claim) db.jobs) _ h in
      elim (claim_returned-jobs rows returned db rest) [
        | inl e ↦ rw e (
            one-update (organization_of session) by_claim i no_settings test (claimed_row i claim)
              db.jobs (is_row-owner (organization_of session) candidate.id) (λ row t. refl) wrote)
        | inr p ↦ stays (organization_of session) by_claim db.jobs after.jobs p.1
      ]

  pub claim_next_job-Table :
      (locked : ℕ → Bool) (claim : Claim) (db : Db) {r : Option JobRecord} {after : Db}
      → claim_next_job locked session i hook claim db ≡ ok (r, after)
      → Table (organization_of session) by_claim db.jobs after.jobs
  unfolding claim_next_job
  claim_next_job-Table locked claim db h =
      let (_, _, h1) = >>=-eq-ok (check_worker_id claim.worker_id) _ h in
      let (_, _, h2) = >>=-eq-ok (check_lease_seconds claim.lease_seconds) _ h1 in
      let (_, _, h3) = >>=-eq-ok (open_transaction db session run_jobs) _ h2 in
      claim_candidate-Table claim
        (pick_first comes_before (is_candidate locked (organization_of session) i claim) db.jobs) db
        h3

  find_row-absent :
      (id : ℕ) (rows : List JobRecord)
      → is_some (find_row (has_id id) rows) ≡ false
      → All (λ (row : JobRecord). row.id ≢ id) rows
  unfolding find_row
  find_row-absent id [] h = tt
  find_row-absent id (row ∷ rows) h = elim (Bool-cases (has_id id row)) [
    | inl t ↦ cc (rw t at h)
    | inr f ↦ ((λ e. cc (f, (==_iff row.id id).1 e)), find_row-absent id rows (rw f at h))
  ]

  insert_job-Table :
      (new : JobRecord) (db : Db) {r : JobRecord} {after : Db}
      → new.organization_id ≡ organization_of session
      → new.status ≡ queued
      → new.attempts ≡ 0
      → row_checks new ≡ true
      → insert_job hook new db ≡ ok (r, after)
      → Table (organization_of session) by_enqueue db.jobs after.jobs
  unfolding insert_job
  insert_job-Table new db owner waiting unused checked h =
      let (_, absent, h1) =
        >>=-eq-ok
          (guard (not (is_some (find_row (has_id new.id) db.jobs))) (database unique_violation)) _
          h in
      let (trail, _, h2) = >>=-eq-ok (hook new db.audit) _ h1 in
      rw (result-jobs h2) (
        added new db.jobs refl (record {
          owner = owner;
          waiting = waiting;
          unused = unused;
          checked = checked;
          fresh = find_row-absent new.id db.jobs (
              ground (
                arith,
                guard-eq-ok (not (is_some (find_row (has_id new.id) db.jobs)))
                    (database unique_violation) absent,
              ));
        }))

  insert_or_replay-Table :
      (new : JobRecord) (db : Db) {r : JobRecord} {after : Db}
      → new.organization_id ≡ organization_of session
      → new.status ≡ queued
      → new.attempts ≡ 0
      → insert_or_replay hook new db ≡ ok (r, after)
      → Table (organization_of session) by_enqueue db.jobs after.jobs
  unfolding insert_or_replay
  insert_or_replay-Table new db {after = after} owner waiting unused h =
      let (_, _, h1) = >>=-eq-ok (guard_insert new) _ h in
      let (_, checked, h2) = >>=-eq-ok (guard (row_checks new) (database check_violation)) _ h1 in
      elim (Option-cases (find_row (same_key new) db.jobs)) [
        | inl e ↦
            insert_job-Table new db owner waiting unused
              (guard-eq-ok (row_checks new) (database check_violation) checked) (rw e at h2)
        | inr p ↦
            stays (organization_of session) by_enqueue db.jobs after.jobs
              (result-jobs (rw p.1 at h2))
      ]

  pub enqueue_job-Table :
      (request : Request) (db : Db) {r : JobRecord} {after : Db}
      → enqueue_job session i hook request db ≡ ok (r, after)
      → Table (organization_of session) by_enqueue db.jobs after.jobs
  unfolding enqueue_job new_job
  enqueue_job-Table request db h =
      let (document, _, h1) = >>=-eq-ok (validate_payload request.payload) _ h in
      let (_, _, h2) = >>=-eq-ok (guard (priority_in_range request.priority) value_error) _ h1 in
      let (_, _, h3) =
        >>=-eq-ok (guard (leb 1 request.max_attempts && leb request.max_attempts 20) value_error) _
          h2 in
      let (_, _, h4) =
        >>=-eq-ok (open_transaction db session (enqueue_permission request.job_type)) _ h3 in
      let (_, _, h5) = >>=-eq-ok (check_store db session request.store_id) _ h4 in
      let (_, _, h6) = >>=-eq-ok (check_jsonb document) _ h5 in
      insert_or_replay-Table (new_job session i (record request { payload = document })) db refl
        refl refl h6
