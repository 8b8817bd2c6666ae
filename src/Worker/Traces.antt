-- ===== src/Worker/Traces.antt =====
-- The audit events that a worker writes in the transaction of each change (`_audit` and its callers in
-- workers/worker.py), and what the database checks of them: the constraint of revision 0005_audit, and
-- the trigger and the policy of revision 0007_service_identity.
use mervio.Jobs.Guard.{is_some}
use mervio.Error.{
  Result, ◌>>◌, guard, database, human_actor, row_policy, human_principal, check_violation, ok,
}
use mervio.Prelude.{
  Option, ℕ, List, Bool, not, true, false, if◌then◌else◌, ◌&&◌, ◌∷◌, ◌||◌, some, none, ◌==◌, [],
}
use mervio.Jobs.Record.{JobRecord, status_eq, queued}
use mervio.Database.{
  Action, ActorType, Session, AuditEvent, job_recovered, User, job_claimed, Outcome, started, Hook,
  tenant, outcome_failed, organization_of, user, system, service, worker, job_succeeded, user_of,
  outcome_succeeded, job_requeued, job_failed,
}

-- SELECT 1 FROM users WHERE id = … AND kind = 'human'
unfoldable pub is_human : ℕ → List User → Bool
is_human id [] = false
is_human id (u ∷ us) = (u.id == id && not u.is_service) || is_human id us

-- A NULL reference passes.
abbrev pub null_or_human : List User → Option ℕ → Bool
null_or_human users none = true
null_or_human users (some id) = is_human id users

abbrev pub is_user : ActorType → Bool
is_user user = true
is_user _ = false

-- audit_events_guard_actors
unfoldable pub guard_actors : List User → AuditEvent → Result (Unit {0})
guard_actors users e = do
  guard (not (is_user e.actor_type) || null_or_human users e.actor_id) (database human_actor)
  guard (null_or_human users e.on_behalf_of) (database human_principal)

-- audit_events_user_actor_identified
abbrev pub identified : AuditEvent → Bool
identified e = not (is_user e.actor_type) || is_some e.actor_id

-- `=` between references: NULL equals nothing.
abbrev sql_eq : Option ℕ → Option ℕ → Bool
sql_eq (some a) (some b) = a == b
sql_eq none _ = false
sql_eq (some a) none = false

-- The policy audit_events_service_actor, on an event about a job: `acting_for` is
-- `app_current_user_id()`, and the row of the job tells who asked for it.
unfoldable pub service_actor : Option ℕ → Option ℕ → JobRecord → AuditEvent → Bool
service_actor connected acting_for job e =
    not (is_user e.actor_type)
    && (sql_eq e.actor_id connected
        && (not (is_some e.on_behalf_of)
            || (sql_eq e.on_behalf_of acting_for
                || (e.resource_id == job.id && sql_eq e.on_behalf_of job.enqueued_by))))

-- The policy binds the role of the worker, which only a service session has.
abbrev pub passes_policy : Session → Option ℕ → JobRecord → AuditEvent → Bool
passes_policy (tenant t) connected job e = true
passes_policy (service s) connected job e = service_actor connected none job e

-- INSERT INTO audit_events, in a transaction that has changed the job.
unfoldable pub insert_event :
    Session
    → List User
    → Option ℕ
    → JobRecord
    → AuditEvent
    → List AuditEvent
    → Result (List AuditEvent)
insert_event session users connected job e trail = do
  guard_actors users e
  guard (passes_policy session connected job e) (database row_policy)
  guard (identified e) (database check_violation)
  ok (e ∷ trail)

-- The event of `_audit`; `service_id` is none where the worker serves a list of sessions.
unfoldable pub event_of : Option ℕ → Session → Action → Outcome → ActorType → JobRecord → AuditEvent
event_of service_id session action outcome actor_type job = record {
  organization_id = organization_of session;
  store_id = job.store_id;
  actor_type = actor_type;
  actor_id = elim service_id [ none ↦ some (user_of session) | some s ↦ some s ];
  action = action;
  resource_id = job.id;
  correlation_id = job.correlation_id;
  outcome = outcome;
  on_behalf_of = elim service_id [ none ↦ none | some s ↦ job.enqueued_by ];
}

-- The event of `_recover_in`, whose actor is the system's.
unfoldable pub recovery_event : Option ℕ → Session → JobRecord → AuditEvent
recovery_event service_id session job =
    record (event_of service_id session job_recovered outcome_failed system job) {
      actor_id = service_id;
      on_behalf_of = none;
    }

-- JOB_REQUEUED if the row is queued again, JOB_FAILED otherwise.
abbrev pub failure_action : JobRecord → Action
failure_action job = if status_eq job.status queued then job_requeued else job_failed

-- Which call writes the event.
pub data Occasion : Type 0 where
  claiming success failure release_ recovery : Occasion

abbrev pub event_on : Occasion → Option ℕ → Session → JobRecord → AuditEvent
event_on claiming service_id session job =
    event_of service_id session job_claimed started worker job
event_on success service_id session job =
    event_of service_id session job_succeeded outcome_succeeded worker job
event_on failure service_id session job =
    event_of service_id session (failure_action job) outcome_failed worker job
event_on release_ service_id session job =
    event_of service_id session job_requeued outcome_failed worker job
event_on recovery service_id session job = recovery_event service_id session job

-- The hook of a call, on the users and the connection of the database.
unfoldable pub trace : Occasion → Option ℕ → Session → List User → Option ℕ → Hook
trace occasion service_id session users connected job trail =
    insert_event session users connected job (event_on occasion service_id session job) trail
