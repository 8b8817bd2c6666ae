-- ===== src/Jobs/Renewal.antt =====
-- The holder of an attempt renews its lease (`renew_lease` of persistence/jobs.py).
use mervio.Jobs.Total.{one_found}
use mervio.Jobs.Guard.{sql_le, greatest}
use mervio.Jobs.Record.{running}
use mervio.Jobs.Publishing.{row-id, Published}
use mervio.Prelude.{◌⊎◌, ◌+◌, ◌*◌, inl, inr, Bool-cases, leb, ap}
use mervio.Jobs.Agreement.Ending.{renew_accepted}
use mervio.Jobs.Total.{rewritten, update_one}
use mervio.Jobs.Agreement.{stamped_at}
use mervio.Error.{ok}
use mervio.Jobs.Schedule.{check_lease_seconds}
use mervio.Jobs.Attempt.{
  renew_lease, renew_returned, is_renewable, check_timeout, holder_for, renewed_row,
  attempt_settings,
}
use mervio.Jobs.Publishing.{Ready, committed, owns-id, owning-row, commit_row-committed}
use mervio.Prelude.{String, Bool, some, Option, ℕ, List, ◌≡◌, ◌≤◌, true, none, &&-both, arith, refl}
use mervio.Jobs.Record.{JobRecord}
use mervio.Jobs.Guard.{Instant, sql_lt}
use mervio.Database.{Session, Hook, Db, organization_of, AuditEvent}

module _ (session : Session) (i : Instant) (hook : Hook) (job : JobRecord) (holder : String)
    (row : JobRecord) (db : Db) (r : Ready session job holder row db) where
  abbrev renewing : JobRecord → Bool
  renewing row = is_renewable (organization_of session) i job (some holder) row

  renewing-id : (x : JobRecord) → renewing x ≡ true → x.id ≡ job.id
  renewing-id x t = owns-id (organization_of session) job (some holder) x (&&-both _ _ t).0

  -- The row after a renewal: its lease ends when it was to end, or after the time asked for, whichever
  -- is later, and the attempt is the same.
  pub record Renewed (lease_seconds : ℕ) (new : JobRecord) : Type 0 where
    pub until : ℕ
    pub leased : new.lease_expires_at ≡ some until
    pub asked : i.now + lease_seconds * 1000000 ≤ until
    pub kept : sql_le row.lease_expires_at (some until) ≡ true
    pub no_longer : (until ≡ i.now + lease_seconds * 1000000) ⊎ (row.lease_expires_at ≡ some until)
    pub running_on : new.status ≡ running
    pub counted : new.attempts ≡ row.attempts
    pub locked : new.locked_by ≡ row.locked_by

  renewed_row-Renewed :
      (lease_seconds : ℕ)
      → sql_lt (some i.clock) row.lease_expires_at ≡ true
      → Renewed lease_seconds (stamped_at i (renewed_row i lease_seconds row))
  unfolding renewed_row
  renewed_row-Renewed lease_seconds runs = record {
    until = greatest row.lease_expires_at (i.now + lease_seconds * 1000000);
    leased = refl;
    asked = longer row.lease_expires_at (i.now + lease_seconds * 1000000);
    kept = later row.lease_expires_at (i.now + lease_seconds * 1000000) runs;
    no_longer = one_of row.lease_expires_at (i.now + lease_seconds * 1000000);
    running_on = r.held.active;
    counted = refl;
    locked = refl;
  }
    where
      longer : (o : Option ℕ) (b : ℕ) → b ≤ greatest o b
      longer none b = ground arith
      longer (some a) b = ground arith

      later :
          (o : Option ℕ) (b : ℕ)
          → sql_lt (some i.clock) o ≡ true
          → sql_le o (some (greatest o b)) ≡ true
      later none b h = cc h
      later (some a) b h = ground arith

      one_of : (o : Option ℕ) (b : ℕ) → (greatest o b ≡ b) ⊎ (o ≡ some (greatest o b))
      one_of none b = inl refl
      one_of (some a) b = elim (Bool-cases (leb a b)) [
        | inl t ↦ inl (ground (arith, t))
        | inr f ↦ inr (ap some (ground (arith, f)))
      ]

  renewed_row-id : (l : ℕ) → (renewed_row i l row).id ≡ job.id
  unfolding renewed_row
  renewed_row-id l = row-id session i hook job holder row db r

  -- When the session may run jobs, a valid table has the row of the job, and the holder holds it, running
  -- at that attempt: a renewal for an allowed time, without a statement timeout, whose lease still runs
  -- by both readings of a clock that does not go back, with a hook that does not raise, returns the row
  -- as the table has it afterwards, with the hook's events in the trail: the same attempt, running, under
  -- a lease for the time asked from now, or until it was to end if that is later.
  pub renew_lease_total :
      (worker_id : Option String) (lease_seconds : ℕ)
      → holder_for worker_id job ≡ some holder
      → check_lease_seconds lease_seconds ≡ ok tt
      → i.now ≤ i.guard_clock
      → sql_lt (some i.clock) row.lease_expires_at ≡ true
      → sql_lt (some i.guard_clock) row.lease_expires_at ≡ true
      → ((x : JobRecord) → (trail : List AuditEvent) × (hook x db.audit ≡ ok trail))
      → (new : JobRecord) × (after : Db) × (renew_lease session i hook job worker_id lease_seconds
            none db
          ≡ ok (new, after))
        × Published session i hook job holder row db r new after
        × Renewed lease_seconds new
  unfolding renew_lease renew_returned check_timeout check_lease_seconds
  renew_lease_total worker_id lease_seconds w l clock runs runs' h =
      let set = renewed_row i lease_seconds in
      let (trail, told) = h (stamped_at i (set row)) in
      let selected : renewing row ≡ true =
        rw (owning-row session i hook job holder row db r, runs) refl in
      (
        stamped_at i (set row),
        committed db (rewritten i renewing set db.jobs) trail,
        rw (l, r.opened, w)
            (rw
              (update_one i renewing set job.id renewing-id (attempt_settings job (some holder))
                db.jobs row r.sound.unique r.found selected
                (renew_accepted i job holder row r.held lease_seconds (ground arith) clock runs'))
              (commit_row-committed session i hook job holder row db r
                (rewritten i renewing set db.jobs) (stamped_at i (set row)) told)),
        record {
          stored =
              one_found i renewing set job.id renewing-id db.jobs row r.found selected
                (renewed_row-id lease_seconds);
          told = told;
        },
        renewed_row-Renewed lease_seconds runs,
      )
