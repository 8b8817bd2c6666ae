-- ===== src/DelegationTests.antt =====
-- The delegation of a job that was just enqueued, at the sample database.
use mervio.Json.Stored.{check_jsonb, storable_fields}
use mervio.Error.{ok}
use mervio.Delegation.{delegated_session, enqueued_delegates, service_reaches}
use mervio.Json.Dump.{fields_width}
use mervio.Jobs.Guard.{
  guard_insert, row_checks, lock_consistent, finished_consistent, texts_in_range,
}
use mervio.Tenancy.{authorise, role_allows, membership_role}
use mervio.Json.{end}
use mervio.Prelude.{◌∷◌, none, ◌≡◌, refl}
use mervio.Jobs.Payload.{validate_payload, validate_fields}
use mervio.Jobs.Sample.{sample_db, owner_session, noon}
use mervio.Jobs.Record.{JobRecord, analysis, pos}
use mervio.Database.{Db, open_transaction, no_hook, service_authorized}
use mervio.Jobs.Queue.{
  Request, enqueue_job, new_job, enqueue_permission, check_store, insert_or_replay, insert_job,
  find_row, same_key,
}

abbrev keyless : Request
keyless = record {
  job_type = analysis;
  payload = end;
  store_id = none;
  priority = pos 0;
  max_attempts = 3;
  idempotency_key = none;
  available_at = none;
  correlation_id = none;
  fresh_id = 20;
  fresh_correlation = 21;
}

abbrev asked_job : JobRecord
asked_job = new_job owner_session noon keyless

abbrev asked_db : Db
asked_db = record sample_db { jobs = asked_job ∷ sample_db.jobs }

enqueued_delegates_example :
    delegated_session asked_db (record { organization_id = 7; principal = 3 }) asked_job
    ≡ ok (record { organization_id = 7; user_id = 11 })
unfolding enqueue_job enqueue_permission validate_payload open_transaction authorise role_allows
    check_store check_jsonb storable_fields service_reaches service_authorized insert_or_replay
    insert_job find_row same_key guard_insert row_checks lock_consistent finished_consistent
    texts_in_range new_job membership_role validate_fields fields_width
enqueued_delegates_example =
    enqueued_delegates (record { organization_id = 7; user_id = 11 }) noon no_hook keyless sample_db
      asked_db (record { organization_id = 7; principal = 3 }) refl refl refl refl
