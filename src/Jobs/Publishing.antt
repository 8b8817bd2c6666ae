-- ===== src/Jobs/Publishing.antt =====
-- The holder of an attempt publishes its fate: the calls return, and what they leave.
use mervio.Json.Stored.{check_jsonb}
use mervio.Jobs.Total.{one_found}
use mervio.Jobs.Record.{succeeded}
use mervio.Prelude.{none}
use mervio.Jobs.Payload.{validate_payload}
use mervio.Json.{Fields}
use mervio.Jobs.Total.{rewritten, update_one}
use mervio.Jobs.Agreement.{stamped_at}
use mervio.Jobs.Agreement.Ending.{Holds, succeed_accepted}
use mervio.Tenancy.{run_jobs}
use mervio.Jobs.Returned.{In-row_of}
use mervio.Error.{ok}
use mervio.Jobs.Lineage.{row_of}
use mervio.Jobs.Queue.{commit_row, coalesce}
use mervio.Jobs.Table.{IsValid}
use mervio.Jobs.Record.{JobRecord}
use mervio.Prelude.{
  ℕ, List, Option, String, Bool, ◌≡◌, true, some, arith, str_eq_refl, ==_refl, refl,
}
use mervio.Jobs.Guard.{Instant, write_row, ordered}
use mervio.Jobs.Attempt.{
  owns, end_attempt, update_attempt, end_returned, attempt_settings, mark_succeeded, holder_for,
  succeeded_row,
}
use mervio.Database.{Session, Db, Hook, AuditEvent, organization_of, open_transaction}

-- The session may run jobs, and the table has the row of the job, which the holder holds.
pub record Ready (session : Session) (job : JobRecord) (holder : String) (row : JobRecord) (db : Db)
    : Type 0 where
  pub sound : IsValid db.jobs
  pub found : row_of job.id db.jobs ≡ some row
  pub ours : row.organization_id ≡ organization_of session
  pub opened : open_transaction db session run_jobs ≡ ok tt
  pub held : Holds job holder row

-- The database after an UPDATE and the hook.
abbrev pub committed : Db → List JobRecord → List AuditEvent → Db
committed db rows trail = record db { jobs = rows; audit = trail }

pub owns-id :
    (organization : ℕ) (job : JobRecord) (holder : Option String) (row : JobRecord)
    → owns organization job holder row ≡ true
    → row.id ≡ job.id
unfolding owns
owns-id organization job holder row h = ground arith

module _ (session : Session) (i : Instant) (hook : Hook) (job : JobRecord) (holder : String)
    (row : JobRecord) (db : Db) (r : Ready session job holder row db) where
  abbrev owning : JobRecord → Bool
  owning = owns (organization_of session) job (some holder)

  pub owning-row : owning row ≡ true
  unfolding owns
  owning-row =
      let (_, id) = In-row_of job.id db.jobs row r.found in
      ground (
        arith,
        r.ours,
        id,
        r.held.active,
        r.held.locked,
        r.held.attempt_of,
        str_eq_refl holder,
        ==_refl job.attempts,
        ==_refl job.id,
        ==_refl (organization_of session),
      )

  -- What a publication leaves: the row it returns, where the table had the job's, and the hook's events.
  pub record Published (new : JobRecord) (after : Db) : Type 0 where
    pub stored : row_of job.id after.jobs ≡ some new
    pub told : hook new db.audit ≡ ok after.audit

  pub record Succeeded (document : Fields) (now : Option ℕ) (new : JobRecord) : Type 0 where
    pub status : new.status ≡ succeeded
    pub ended : new.finished_at ≡ some (coalesce now i.now)
    pub carried : new.result ≡ some document
    pub counted : new.attempts ≡ row.attempts
    pub unlocked : new.locked_by ≡ none
    pub unleased : new.lease_expires_at ≡ none
    pub cleared : new.last_error_code ≡ none
    pub silent : new.last_error ≡ none
    pub released : new.locked_at ≡ none

  pub commit_row-committed :
      (rows : List JobRecord) (new : JobRecord) {trail : List AuditEvent}
      → hook new db.audit ≡ ok trail
      → commit_row hook rows new db ≡ ok (new, committed db rows trail)
  unfolding commit_row
  commit_row-committed rows new h = rw h refl

  pub update_attempt-published :
      (set : JobRecord → JobRecord) {trail : List AuditEvent}
      → write_row i (attempt_settings job (some holder)) row (set row) ≡ ok (stamped_at i (set row))
      → hook (stamped_at i (set row)) db.audit ≡ ok trail
      → update_attempt session i hook job (some holder) set db
        ≡ ok (stamped_at i (set row), committed db (rewritten i owning set db.jobs) trail)
  unfolding update_attempt end_returned
  update_attempt-published set w h =
      rw
        (update_one i owning set job.id (owns-id (organization_of session) job (some holder))
          (attempt_settings job (some holder)) db.jobs row r.sound.unique r.found owning-row w)
        (commit_row-committed (rewritten i owning set db.jobs) (stamped_at i (set row)) h)

  pub end_attempt-published :
      (set : JobRecord → JobRecord) {trail : List AuditEvent}
      → write_row i (attempt_settings job (some holder)) row (set row) ≡ ok (stamped_at i (set row))
      → hook (stamped_at i (set row)) db.audit ≡ ok trail
      → end_attempt session i hook job (some holder) set db
        ≡ ok (stamped_at i (set row), committed db (rewritten i owning set db.jobs) trail)
  unfolding end_attempt
  end_attempt-published set w h = rw r.opened (update_attempt-published set w h)

  pub owning-found :
      (set : JobRecord → JobRecord)
      → (set row).id ≡ job.id
      → row_of job.id (rewritten i owning set db.jobs) ≡ some (stamped_at i (set row))
  owning-found set =
      one_found i owning set job.id (owns-id (organization_of session) job (some holder)) db.jobs
        row r.found owning-row

  pub row-id : row.id ≡ job.id
  row-id = (In-row_of job.id db.jobs row r.found).1

  -- When the session may run jobs, a valid table has the row of the job, and the holder holds it, running
  -- at that attempt: with a result that passes validation and that jsonb takes, an end not before the row's
  -- start, and a hook that does not raise, `mark_succeeded` returns the row as the table has it afterwards,
  -- and the hook's events stand in the trail. The row has succeeded at the given time, or now, with the
  -- result; it has its attempts, and no lock, no lease and no error.
  pub mark_succeeded_total :
      (result document : Fields) (worker_id : Option String) (now : Option ℕ)
      → holder_for worker_id job ≡ some holder
      → validate_payload result ≡ ok document
      → check_jsonb document ≡ ok tt
      → ordered row.started_at (some (coalesce now i.now)) ≡ true
      → ((x : JobRecord) → (trail : List AuditEvent) × (hook x db.audit ≡ ok trail))
      → (new : JobRecord) × (after : Db) × (mark_succeeded session i hook job result worker_id now
            db
          ≡ ok (new, after))
        × Published new after
        × Succeeded document now new
  unfolding mark_succeeded succeeded_row
  mark_succeeded_total result document worker_id now w v storable o h =
      let set = succeeded_row i now document in
      let (trail, told) = h (stamped_at i (set row)) in
      (
        stamped_at i (set row),
        committed db (rewritten i owning set db.jobs) trail,
        rw (v, w, r.opened, storable)
            (update_attempt-published set (succeed_accepted i job holder row r.held now document o)
              told),
        record { stored = owning-found set row-id; told = told },
        record {
          status = refl;
          ended = refl;
          carried = refl;
          counted = refl;
          unlocked = refl;
          unleased = refl;
          cleared = refl;
          silent = refl;
          released = refl;
        },
      )
