-- ===== src/Worker/TraceTests.antt =====
-- The theorems on the audit trail of a worker and on its recovery, on the small database.
use mervio.Worker.Recovering.{Turns}
use mervio.Worker.Traced.{Tells}
use mervio.Database.{AuditEvent}
use mervio.Prelude.{true}
use mervio.Json.{fields_eq}
use mervio.Jobs.Recovery.{
  is_expired, recover_stale_jobs, recover_each, recover_one, recover_returned, taken_back,
  recovered_row, exhausted_row,
}
use mervio.Jobs.Schedule.{
  check_lease_seconds, check_limit, pick_first, comes_before, sort_rows, insert_sorted,
}
use mervio.Worker.Traced.{work_traced, claimed, trace_accepted}
use mervio.Error.{ok}
use mervio.Jobs.History.{history}
use mervio.Jobs.Sample.{
  waiting_row, unlocked, running_row, sample_db, worker_session, later_row, noon, finished_row,
  sample_claim, foreign_row,
}
use mervio.Dispatch.{
  Dispatcher, expired_lease_organizations, organizations, served_organizations, is_served,
  has_expired, insert_organization,
}
use mervio.Database.{
  Hook, Db, Session, no_hook, service, job_claimed, started, worker, open_transaction,
  authorise_service, service_authorized,
}
use mervio.Jobs.Record.{JobRecord, queued, running}
use mervio.Worker.Traces.{
  is_human, trace, event_on, claiming, event_of, insert_event, guard_actors, service_actor,
}
use mervio.Jobs.Queue.{
  claim_next_job, check_worker_id, claim_candidate, claim_returned, commit_row, is_candidate,
  claimed_row,
}
use mervio.Worker.Recovering.{
  Sweep, recover_stale, dispatcher_of, recoveries, Sessions, recover_stale-history,
  recover_sessions, recovered_or_skipped,
}
use mervio.Jobs.Guard.{
  Instant, row_checks, lock_consistent, finished_consistent, texts_in_range, update_rows, write_row,
  guard_transition, guard_claim, legal_transition, guard_running, same_identity, guard_recovery,
  holder_of,
}
use mervio.Prelude.{◌≡◌, List, none, ◌∷◌, some, [], refl}

abbrev claim_hook : Hook
claim_hook = trace claiming (some 3) worker_session sample_db.users sample_db.connected_service

abbrev claimed_row_1 : JobRecord
claimed_row_1 = record waiting_row {
  status = running;
  attempts = 1;
  locked_at = some 2000;
  locked_by = some "w9";
  lease_expires_at = some 60002000;
  started_at = some 2000;
  updated_at = 2002;
}

abbrev after_claim : Db
after_claim = record sample_db {
  jobs = claimed_row_1 ∷ later_row ∷ running_row ∷ finished_row ∷ foreign_row ∷ [];
  audit = event_of (some 3) worker_session job_claimed started worker claimed_row_1 ∷ [];
}

small_claim :
    claim_next_job unlocked worker_session noon claim_hook sample_claim sample_db
    ≡ ok (some claimed_row_1, after_claim)
unfolding claim_next_job check_worker_id check_lease_seconds open_transaction authorise_service
    service_authorized claim_candidate claim_returned commit_row pick_first comes_before
    is_candidate row_checks lock_consistent finished_consistent texts_in_range update_rows write_row
    guard_transition guard_claim legal_transition same_identity claimed_row fields_eq trace
    insert_event guard_actors is_human service_actor event_of
small_claim = refl

work_traced_example :
    (event : AuditEvent) × (after_claim.audit ≡ event ∷ sample_db.audit)
    × Tells worker_session claimed_row_1 event
work_traced_example =
    work_traced (some 3) worker_session noon claiming sample_db claimed_row_1 after_claim
      (claimed unlocked sample_claim sample_db after_claim claimed_row_1 small_claim)

trace_accepted_example :
    trace claiming
      (some 3)
      (service (record { organization_id = 7; principal = 3 }))
      sample_db.users
      (some 3)
      waiting_row
      []
    ≡ ok (event_on claiming (some 3) worker_session waiting_row ∷ [])
unfolding is_human
trace_accepted_example =
    trace_accepted claiming (record { organization_id = 7; principal = 3 }) sample_db.users
      waiting_row [] refl

abbrev later : Instant
later = record { now = 120002000; clock = 120002001; guard_clock = 120002002 }

abbrev sweep : Sweep
sweep = record {
  locked = unlocked;
  instants = λ s. later;
  hooks = λ s. no_hook;
  now = none;
  limit = 100;
}

abbrev the_dispatcher : Dispatcher
the_dispatcher = record { principal = 3; batch = 50; cursor = none }

abbrev requeued_3 : JobRecord
requeued_3 = record running_row {
  status = queued;
  locked_at = none;
  locked_by = none;
  lease_expires_at = none;
  available_at = 120002000;
  last_error_code = some "lease_expired";
  updated_at = 120002002;
}

abbrev after_sweep : Db
after_sweep = record sample_db {
  jobs = waiting_row ∷ later_row ∷ requeued_3 ∷ finished_row ∷ foreign_row ∷ [];
}

small_sweep :
    recover_stale (dispatcher_of the_dispatcher) later sweep sample_db
    ≡ ok (requeued_3 ∷ [], after_sweep)
unfolding recover_stale expired_lease_organizations organizations check_limit served_organizations
    is_served has_expired is_expired insert_organization recover_sessions recovered_or_skipped
    recover_stale_jobs recover_each recover_one recover_returned sort_rows insert_sorted taken_back
    recovered_row exhausted_row guard_running guard_recovery holder_of check_worker_id
    check_lease_seconds open_transaction authorise_service service_authorized commit_row row_checks
    lock_consistent finished_consistent texts_in_range update_rows write_row guard_transition
    legal_transition same_identity fields_eq
small_sweep = refl

recover_stale-history_example :
    (ss : List Session) × (after_sweep ≡ history (recoveries sweep ss) sample_db)
    × Sessions (dispatcher_of the_dispatcher) later sweep sample_db ss
    × Turns true sweep ss sample_db
recover_stale-history_example =
    recover_stale-history (dispatcher_of the_dispatcher) later sweep sample_db small_sweep
