-- ===== src/Jobs/Exclusion.antt =====
-- A job that has been claimed is not claimed again while it runs.
use mervio.Jobs.Machine.{by_claim}
use mervio.Jobs.Trigger.{write_row-stamp}
use mervio.Jobs.Steps.{commit_row-ok, result-jobs}
use mervio.Tenancy.{run_jobs}
use mervio.Jobs.Lineage.{some-eq}
use mervio.Jobs.Steps.Queue.{claim_next_job-Table}
use mervio.Jobs.Schedule.{check_lease_seconds, pick_first, comes_before}
use mervio.Jobs.Claims.{candidate, is_row-id, candidate-facts}
use mervio.Jobs.Claiming.{First, pick_first-First}
use mervio.Error.{ok, >>=-eq-ok, ok-injective}
use mervio.Jobs.Returned.{In, update_rows-Source, row_of-In, update_rows-In}
use mervio.Jobs.Table.{IsValid, Table-IsValid}
use mervio.Jobs.Record.{JobRecord, running, queued}
use mervio.Database.{Hook, Session, Db, organization_of, open_transaction}
use mervio.Jobs.Guard.{Instant, update_rows}
use mervio.Prelude.{
  ℕ, Bool, List, ◌≡◌, arith, some, ◌≢◌, ◌∷◌, ap, Option, sym, Option-cases, ◌∙◌, [], inl, inr, none,
}
use mervio.Jobs.Queue.{
  claim_returned, claimed_row, Claim, claim_next_job, claim_candidate, check_worker_id, is_row,
  no_settings, commit_row,
}

claim_returned-some :
    (hook : Hook) (rows returned : List JobRecord) (db : Db) {job : JobRecord} {after : Db}
    → claim_returned hook rows returned db ≡ ok (some job, after)
    → (rest : List JobRecord) × (returned ≡ job ∷ rest) × (after.jobs ≡ rows)
unfolding claim_returned
claim_returned-some hook rows [] db h =
    cc (ap (λ (p : Option JobRecord × Db). p.0) (ok-injective h))
claim_returned-some hook rows (row ∷ rest) db h =
    let ((claimed, mid), done, e) = >>=-eq-ok (commit_row hook rows row db) _ h in
    let (same, jobs) = commit_row-ok hook rows row db done in
    let back = some-eq (ap (λ (p : Option JobRecord × Db). p.0) (ok-injective e)) in
    (rest, ap (λ r. r ∷ rest) (sym same ∙ back), result-jobs e ∙ jobs)

claimed_facts :
    (i : Instant) (claim : Claim) (old : JobRecord) {job : JobRecord}
    → job ≡ record (claimed_row i claim old) { updated_at = i.guard_clock }
    → (old.id ≡ job.id) × (job.status ≡ running)
unfolding claimed_row
claimed_facts i claim old e = ground arith

module _ (locked : ℕ → Bool) (session : Session) (i : Instant) (hook : Hook) (claim : Claim)
    (db : Db) where
  -- What a claim that returned a job did: a queued row of its identifier was in the table, and the
  -- job, running, is in the table after it.
  pub record Took (job : JobRecord) (after : Db) : Type 0 where
    before : JobRecord
    member : In before db.jobs
    waiting : before.status ≡ queued
    same_id : before.id ≡ job.id
    stored : In job after.jobs
    pub active : job.status ≡ running

  claim_candidate-Took :
      (chosen : JobRecord) {job : JobRecord} {after : Db}
      → First (candidate locked session i hook claim db) db.jobs chosen
      → claim_candidate (organization_of session) i hook claim (some chosen) db
        ≡ ok (some job, after)
      → Took job after
  unfolding claim_candidate
  claim_candidate-Took chosen {job} {after} f h =
      let test = is_row (organization_of session) chosen.id in
      let ((rows, returned), wrote, rest) =
        >>=-eq-ok (update_rows i no_settings test (claimed_row i claim) db.jobs) _ h in
      let (tail, e, stored) = claim_returned-some hook rows returned db rest in
      let source =
        (rw e at (update_rows-Source i no_settings test (claimed_row i claim) db.jobs wrote)).0 in
      let stamped =
        (write_row-stamp i no_settings source.old (claimed_row i claim source.old)
          source.wrote).2 in
      let same = is_row-id (organization_of session) chosen.id source.old source.selected in
      record {
        before = chosen;
        member = f.member;
        waiting = (candidate-facts locked (organization_of session) i claim chosen f.eligible).1;
        same_id = sym same ∙ (claimed_facts i claim source.old stamped).0;
        stored =
            rw stored
              ((rw e at (update_rows-In i no_settings test (claimed_row i claim) db.jobs wrote)).0);
        active = (claimed_facts i claim source.old stamped).1;
      }

  claim_nothing :
      {job : JobRecord} {after : Db}
      → claim_candidate (organization_of session) i hook claim none db ≡ ok (some job, after)
      → ⊥
  unfolding claim_candidate
  claim_nothing h = cc (ap (λ (p : Option JobRecord × Db). p.0) (ok-injective h))

  pub claim_next_job-Took :
      {job : JobRecord} {after : Db}
      → claim_next_job locked session i hook claim db ≡ ok (some job, after)
      → Took job after
  unfolding claim_next_job
  claim_next_job-Took h =
      let (_, _, h1) = >>=-eq-ok (check_worker_id claim.worker_id) _ h in
      let (_, _, h2) = >>=-eq-ok (check_lease_seconds claim.lease_seconds) _ h1 in
      let (_, _, h3) = >>=-eq-ok (open_transaction db session run_jobs) _ h2 in
      let test = candidate locked session i hook claim db in
      elim (Option-cases (pick_first comes_before test db.jobs)) [
        | inl idle ↦ absurd (claim_nothing (rw idle at h3))
        | inr p ↦ claim_candidate-Took p.0 (pick_first-First test db.jobs p.1) (rw p.1 at h3)
      ]

-- From a valid table, two claims, one directly after the other, by any workers and sessions at any time,
-- never return the same job.
pub no_double_claim :
    (locked locked' : ℕ → Bool) (session session' : Session) (i i' : Instant) (hook hook' : Hook)
    (claim claim' : Claim) (db : Db) {a b : JobRecord} {mid after : Db}
    → IsValid db.jobs
    → claim_next_job locked session i hook claim db ≡ ok (some a, mid)
    → claim_next_job locked' session' i' hook' claim' mid ≡ ok (some b, after)
    → a.id ≢ b.id
no_double_claim locked locked' session session' i i' hook hook' claim claim' db {a} {b} {mid} v
      first second same =
    let one = claim_next_job-Took locked session i hook claim db first in
    let two = claim_next_job-Took locked' session' i' hook' claim' mid second in
    let v' =
      Table-IsValid (organization_of session) by_claim
        (claim_next_job-Table session i hook locked claim db first) v in
    let e : a ≡ two.before = some-eq (
      sym (row_of-In a mid.jobs v'.unique one.stored)
      ∙ (rw (same, ← two.same_id) (row_of-In two.before mid.jobs v'.unique two.member))) in
    cc (one.active, ap (λ (r : JobRecord). r.status) e, two.waiting)
