-- ===== src/Jobs/Claims.antt =====
-- What `claim_next_job` of persistence/jobs.py returns.
use mervio.Jobs.Total.{rewritten}
use mervio.Jobs.Publishing.{committed}
use mervio.Jobs.Agreement.{stamped_at}
use mervio.Jobs.Claiming.{First}
use mervio.Tenancy.{run_jobs}
use mervio.Error.{ok}
use mervio.Jobs.Schedule.{pick_first, check_lease_seconds, comes_before}
use mervio.Database.{Session, Hook, Db, organization_of, open_transaction, AuditEvent}
use mervio.Jobs.Guard.{Instant}
use mervio.Jobs.Record.{JobRecord, queued}
use mervio.Jobs.Queue.{is_candidate, is_row, Claim, check_worker_id, claim_next_job, claimed_row}
use mervio.Prelude.{ℕ, Bool, ◌≡◌, true, Option, arith, false, List, some}

pub candidate-facts :
    (locked : ℕ → Bool) (organization : ℕ) (i : Instant) (claim : Claim) (row : JobRecord)
    → is_candidate locked organization i claim row ≡ true
    → (row.organization_id ≡ organization) × (row.status ≡ queued) × (locked row.id ≡ false)
unfolding is_candidate
candidate-facts locked organization i claim row h = ground arith

pub is_row-id :
    (organization id : ℕ) (row : JobRecord) → is_row organization id row ≡ true → row.id ≡ id
is_row-id organization id row h = ground arith

module _ (locked : ℕ → Bool) (session : Session) (i : Instant) (hook : Hook) (claim : Claim)
    (db : Db) where
  abbrev pub candidate : JobRecord → Bool
  candidate = is_candidate locked (organization_of session) i claim

  -- The checks in front of the statement pass.
  pub record Permitted : Type 0 where
    pub worker : check_worker_id claim.worker_id ≡ ok tt
    pub lease : check_lease_seconds claim.lease_seconds ≡ ok tt
    pub opened : open_transaction db session run_jobs ≡ ok tt

  abbrev picked : Option JobRecord
  picked = pick_first comes_before candidate db.jobs

  -- The claim of one row.
  pub record Takes (chosen : JobRecord) : Type 0 where
    pub first : First candidate db.jobs chosen
    pub trail : List AuditEvent
    pub traced : hook (stamped_at i (claimed_row i claim chosen)) db.audit ≡ ok trail
    pub returned :
        claim_next_job locked session i hook claim db
        ≡ ok (
          some (stamped_at i (claimed_row i claim chosen)),
          committed db
              (rewritten i
                (is_row (organization_of session) chosen.id)
                (claimed_row i claim)
                db.jobs)
              trail,
        )
