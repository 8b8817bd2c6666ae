-- ===== src/Jobs/Sample.antt =====
-- A small database: two jobs wait, one runs, one is finished, and one belongs to another organization.
use mervio.Error.{ok}
use mervio.Jobs.Table.{IsValid}
use mervio.Json.{end}
use mervio.Tenancy.{run_jobs, owner}
use mervio.Jobs.Guard.{row_checks, Instant, lock_consistent, finished_consistent, texts_in_range}
use mervio.Jobs.Queue.{Claim}
use mervio.Prelude.{ℕ, Bool, ◌∷◌, none, false, [], some, ◌≡◌, ◌+◌, arith, refl, true}
use mervio.Jobs.Record.{JobRecord, analysis, running, succeeded, queued, pos}
use mervio.Database.{
  Session, Db, open_transaction, authorise_service, tenant, service, service_authorized,
  Authorization,
}

abbrev pub sample_row : ℕ → ℕ → JobRecord
sample_row id organization = record {
  id = id;
  organization_id = organization;
  store_id = none;
  job_type = analysis;
  status = queued;
  priority = pos 0;
  attempts = 0;
  max_attempts = 3;
  idempotency_key = none;
  correlation_id = 90 + id;
  enqueued_by = some 11;
  available_at = 100;
  locked_at = none;
  locked_by = none;
  lease_expires_at = none;
  started_at = none;
  finished_at = none;
  last_error_code = none;
  last_error = none;
  payload = end;
  result = none;
  created_at = 100 + id;
  updated_at = 100;
}

abbrev pub waiting_row : JobRecord
waiting_row = sample_row 1 7

abbrev pub later_row : JobRecord
later_row = sample_row 2 7

-- In its second attempt, since 1000.
abbrev pub running_row : JobRecord
running_row = record (sample_row 3 7) {
  status = running;
  attempts = 2;
  locked_at = some 1000;
  locked_by = some "w2";
  lease_expires_at = some 60001000;
  started_at = some 1000;
}

abbrev pub finished_row : JobRecord
finished_row = record (sample_row 4 7) {
  status = succeeded;
  attempts = 1;
  started_at = some 200;
  finished_at = some 300;
  result = some end;
}

abbrev pub foreign_row : JobRecord
foreign_row = sample_row 5 8

abbrev pub sample_authorization : Authorization
sample_authorization = record {
  id = 40;
  organization_id = 7;
  service_user_id = 3;
  granted_by = 11;
  granted_at = 50;
  revoked_by = none;
  revoked_at = none;
}

abbrev pub sample_db : Db
sample_db = record {
  jobs = waiting_row ∷ later_row ∷ running_row ∷ finished_row ∷ foreign_row ∷ [];
  users = record { id = 3; is_service = true } ∷ record { id = 11; is_service = false } ∷ [];
  stores = [];
  memberships = record { id = 60; organization_id = 7; user_id = 11; role = owner } ∷ [];
  authorizations = sample_authorization ∷ [];
  connected_service = some 3;
  audit = [];
}

abbrev pub worker_session : Session
worker_session = service (record { organization_id = 7; principal = 3 })

abbrev pub owner_session : Session
owner_session = tenant (record { organization_id = 7; user_id = 11 })

abbrev pub noon : Instant
noon = record { now = 2000; clock = 2001; guard_clock = 2002 }

abbrev pub sample_claim : Claim
sample_claim = record {
  worker_id = "w9";
  job_types = analysis ∷ [];
  lease_seconds = 60;
  now = none;
  job_id = none;
}

abbrev pub unlocked : ℕ → Bool
unlocked id = false

pub sample_db-IsValid : IsValid sample_db.jobs
unfolding row_checks lock_consistent finished_consistent texts_in_range
sample_db-IsValid = record {
  checked = (refl, (refl, (refl, (refl, (refl, tt)))));
  unique = (
    (ground arith, (ground arith, (ground arith, (ground arith, tt)))),
    (
      (ground arith, (ground arith, (ground arith, tt))),
      ((ground arith, (ground arith, tt)), ((ground arith, tt), (tt, tt))),
    ),
  );
}

pub worker_session-opens : open_transaction sample_db worker_session run_jobs ≡ ok tt
unfolding open_transaction authorise_service service_authorized
worker_session-opens = refl
