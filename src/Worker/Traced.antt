-- ===== src/Worker/Traced.antt =====
-- Every change of a job that a worker makes leaves exactly one event in the audit trail.
use mervio.Jobs.Record.{JobStatus, queued, running, succeeded, failed, cancelled}
use mervio.Jobs.Outcomes.{mark_succeeded-status, mark_failed-status, requeue-status}
use mervio.Jobs.Exclusion.{claim_next_job-Took}
use mervio.Database.{
  Action, Outcome, organization_of, job_requeued, job_claimed, job_succeeded, job_failed,
  job_cancelled, started, outcome_succeeded, outcome_failed,
}
use mervio.Prelude.{◌⊎◌, inl, inr, refl}
use mervio.Jobs.Attempt.{mark_succeeded, Publish, Failure, mark_failed, Requeue, requeue}
use mervio.Json.{Fields}
use mervio.Jobs.Hooked.{
  claim_next_job-Hooked, mark_succeeded-Hooked, mark_failed-Hooked, requeue-Hooked,
}
use mervio.Error.{ok, >>=-eq-ok, guard, database, row_policy, check_violation, ok-injective}
use mervio.Jobs.Queue.{Claim, claim_next_job}
use mervio.Jobs.Record.{JobRecord}
use mervio.Jobs.Guard.{Instant}
use mervio.Database.{Session, Db, User, ServiceSession, AuditEvent, service}
use mervio.Worker.Traces.{
  trace, insert_event, guard_actors, service_actor, event_of, Occasion, recovery_event,
  null_or_human, event_on, claiming, passes_policy, success, failure, release_, identified,
  recovery,
}
use mervio.Prelude.{Option, ℕ, List, Bool, ◌≡◌, ◌∷◌, true, some, arith, String, ==_refl, sym}

-- The action and the outcome that tell of a job of a status.
abbrev pub action_of : JobStatus → Action
action_of queued = job_requeued
action_of running = job_claimed
action_of succeeded = job_succeeded
action_of failed = job_failed
action_of cancelled = job_cancelled

abbrev pub outcome_of : JobStatus → Outcome
outcome_of running = started
outcome_of succeeded = outcome_succeeded
outcome_of queued = outcome_failed
outcome_of failed = outcome_failed
outcome_of cancelled = outcome_succeeded

-- What an event says of a job that a session has changed.
pub record Tells (session : Session) (job : JobRecord) (event : AuditEvent) : Type 0 where
  pub of_session : event.organization_id ≡ organization_of session
  pub about : event.resource_id ≡ job.id
  pub by_one : event.correlation_id ≡ job.correlation_id
  pub names : event.action ≡ action_of job.status
  pub ends : event.outcome ≡ outcome_of job.status

module _ (service_id : Option ℕ) (session : Session) (i : Instant) where
  -- A call of the queue by the worker that returned a row, with the hook that it gives the call.
  pub data Worked : Occasion → Db → JobRecord → Db → Type 0 where
    claimed :
        (locked : ℕ → Bool) (claim : Claim) (db after : Db) (r : JobRecord)
        → claim_next_job locked session i
            (trace claiming service_id session db.users db.connected_service)
            claim
            db
          ≡ ok (some r, after)
        → Worked claiming db r after
    succeeded_ :
        (job : JobRecord) (result : Fields) (worker_id : Option String) (now : Option ℕ)
        (db after : Db) (r : JobRecord)
        → mark_succeeded session i
            (trace success service_id session db.users db.connected_service)
            job
            result
            worker_id
            now
            db
          ≡ ok (r, after)
        → Worked success db r after
    failed_ :
        (publish : Publish) (job : JobRecord) (f : Failure) (db after : Db) (r : JobRecord)
        → mark_failed publish session i
            (trace failure service_id session db.users db.connected_service)
            job
            f
            db
          ≡ ok (r, after)
        → Worked failure db r after
    released_ :
        (publish : Publish) (job : JobRecord) (args : Requeue) (db after : Db) (r : JobRecord)
        → requeue publish session i
            (trace release_ service_id session db.users db.connected_service)
            job
            args
            db
          ≡ ok (r, after)
        → Worked release_ db r after

  trace-eq :
      (o : Occasion) (users : List User) (connected : Option ℕ) (job : JobRecord)
      (trail : List AuditEvent) {after : List AuditEvent}
      → trace o service_id session users connected job trail ≡ ok after
      → after ≡ event_on o service_id session job ∷ trail
  unfolding trace insert_event
  trace-eq o users connected job trail h =
      let (_, _, h1) = >>=-eq-ok (guard_actors users (event_on o service_id session job)) _ h in
      let (_, _, h2) =
        >>=-eq-ok
          (guard (passes_policy session connected job (event_on o service_id session job))
            (database row_policy))
          _ h1 in
      let (_, _, h3) =
        >>=-eq-ok
          (guard (identified (event_on o service_id session job)) (database check_violation)) _
          h2 in
      sym (ok-injective h3)

  -- The event of a row that tells what its status says.
  event_on-Tells :
      (o : Occasion) (r : JobRecord)
      → ((event_on o service_id session r).action ≡ action_of r.status)
      → ((event_on o service_id session r).outcome ≡ outcome_of r.status)
      → Tells session r (event_on o service_id session r)
  unfolding event_of recovery_event
  event_on-Tells claiming r a b = record {
    of_session = refl;
    about = refl;
    by_one = refl;
    names = a;
    ends = b;
  }
  event_on-Tells success r a b = record {
    of_session = refl;
    about = refl;
    by_one = refl;
    names = a;
    ends = b;
  }
  event_on-Tells failure r a b = record {
    of_session = refl;
    about = refl;
    by_one = refl;
    names = a;
    ends = b;
  }
  event_on-Tells release_ r a b = record {
    of_session = refl;
    about = refl;
    by_one = refl;
    names = a;
    ends = b;
  }
  event_on-Tells recovery r a b = record {
    of_session = refl;
    about = refl;
    by_one = refl;
    names = a;
    ends = b;
  }

  failure-Tells :
      (r : JobRecord)
      → (r.status ≡ queued) ⊎ (r.status ≡ failed)
      → Tells session r (event_on failure service_id session r)
  unfolding event_of
  failure-Tells r (inl q) = event_on-Tells failure r (rw q refl) (rw q refl)
  failure-Tells r (inr f) = event_on-Tells failure r (rw f refl) (rw f refl)

  -- Every claim, success, failure and return to the queue by a worker that the database commits has added
  -- one event to the trail and no other: of the organization of the session, about the job that the call
  -- returned, and named, with its outcome, after the status that the job has now: claimed if it runs, and
  -- otherwise succeeded, requeued or failed.
  pub work_traced :
      (o : Occasion) (db : Db) (r : JobRecord) (after : Db)
      → Worked o db r after
      → (event : AuditEvent) × (after.audit ≡ event ∷ db.audit) × Tells session r event
  unfolding event_of
  work_traced o db r after (claimed locked claim d a j h) =
      let hook = trace claiming service_id session d.users d.connected_service in
      let active = (claim_next_job-Took locked session i hook claim d h).active in
      (
        event_on claiming service_id session j,
        trace-eq claiming d.users d.connected_service j d.audit
            (claim_next_job-Hooked session i hook locked claim d h),
        event_on-Tells claiming j (rw active refl) (rw active refl),
      )
  work_traced o db r after (succeeded_ job result w n d a j h) =
      let hook = trace success service_id session d.users d.connected_service in
      let ended = mark_succeeded-status session i hook job result w n d h in
      (
        event_on success service_id session j,
        trace-eq success d.users d.connected_service j d.audit
            (mark_succeeded-Hooked session i hook job result w n d h),
        event_on-Tells success j (rw ended refl) (rw ended refl),
      )
  work_traced o db r after (failed_ publish job f d a j h) =
      let hook = trace failure service_id session d.users d.connected_service in
      (
        event_on failure service_id session j,
        trace-eq failure d.users d.connected_service j d.audit
            (mark_failed-Hooked session i hook publish job f d h),
        failure-Tells j (mark_failed-status session i hook publish job f d h),
      )
  work_traced o db r after (released_ publish job args d a j h) =
      let hook = trace release_ service_id session d.users d.connected_service in
      let waits = requeue-status session i hook publish job args d h in
      (
        event_on release_ service_id session j,
        trace-eq release_ d.users d.connected_service j d.audit
            (requeue-Hooked session i hook publish job args d h),
        event_on-Tells release_ j (rw waits refl) (rw waits refl),
      )

-- A service that serves the organizations that authorized it never has an event refused: on a connection
-- of its own, for a job that no one or a human asked for, the trigger, the policy and the constraint of
-- the trail accept what it writes on any occasion.
pub trace_accepted :
    (o : Occasion) (s : ServiceSession) (users : List User) (job : JobRecord)
    (trail : List AuditEvent)
    → null_or_human users job.enqueued_by ≡ true
    → trace o (some s.principal) (service s) users (some s.principal) job trail
      ≡ ok (event_on o (some s.principal) (service s) job ∷ trail)
unfolding trace insert_event guard_actors service_actor event_of recovery_event
trace_accepted claiming s users job trail h = ground (arith, h, ==_refl s.principal)
trace_accepted success s users job trail h = ground (arith, h, ==_refl s.principal)
trace_accepted failure s users job trail h = ground (arith, h, ==_refl s.principal)
trace_accepted release_ s users job trail h = ground (arith, h, ==_refl s.principal)
trace_accepted recovery s users job trail h = ground (arith, h, ==_refl s.principal)
