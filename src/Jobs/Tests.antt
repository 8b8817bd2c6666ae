-- ===== src/Jobs/Tests.antt =====
-- The theorems on the queue, at the sample database.
use mervio.Jobs.Machine.{by_cancel, by_purge}
use mervio.Json.Stored.{check_jsonb, storable_fields}
use mervio.Json.Dump.{fields_width}
use mervio.Jobs.RawWrites.{TakesBack, running_row_guarded}
use mervio.Jobs.Returned.{In}
use mervio.Error.{ok}
use mervio.Jobs.Idempotence.{repeated, enqueue_replays}
use mervio.Tenancy.{authorise, role_allows, membership_role}
use mervio.Jobs.Recovery.{taken_back, recovered_row}
use mervio.Json.{end, fields_eq}
use mervio.Jobs.Payload.{validate_payload, validate_fields}
use mervio.Jobs.Fencing.{stale_attempt_fenced, succeeding}
use mervio.Jobs.Schedule.{check_lease_seconds, pick_first, comes_before}
use mervio.Jobs.Lineage.{row_of}
use mervio.Jobs.Exclusion.{no_double_claim}
use mervio.Jobs.Sample.{
  owner_session, running_row, sample_db, later_row, waiting_row, finished_row, noon, unlocked,
  worker_session, sample_db-IsValid, sample_claim, foreign_row,
}
use mervio.Jobs.Agreement.{stamped_at}
use mervio.Jobs.History.{
  attempt, Operation, owned, succeed, history, claim, cancel, perform, history-owned,
  finished_frozen, recover, attempts_kept, purge_jobs, attempt-ok, only_db,
}
use mervio.Jobs.Record.{JobRecord, analysis, pos, succeeded}
use mervio.Jobs.Guard.{
  Settings, Instant, row_checks, lock_consistent, finished_consistent, texts_in_range, update_rows,
  write_row, guard_transition, guard_running, guard_recovery, guard_insert, holder_of,
  legal_transition, guard_claim, same_identity,
}
use mervio.Database.{Db, open_transaction, no_hook, authorise_service, service_authorized}
use mervio.Jobs.Queue.{
  check_worker_id, Request, claim_next_job, enqueue_job, find_row, new_job, enqueue_permission,
  claimed_row, is_candidate, claim_candidate, check_store, claim_returned, insert_or_replay,
  commit_row, insert_job, same_key, is_row,
}
use mervio.Prelude.{ℕ, ◌≢◌, List, ◌≡◌, none, ◌+◌, ◌∷◌, ◌⊎◌, some, arith, ◌≤◌, refl, inl, [], ap}

-- The first attempt of the running job, seen by the worker that lost it.
abbrev stale_job : JobRecord
stale_job = record running_row { attempts = 1; locked_by = some "w1" }

abbrev stale_success : Operation
stale_success = succeed worker_session noon no_hook stale_job end (some "w1") none

stale_attempt_fenced_example : attempt stale_success sample_db ≡ sample_db
unfolding find_row
stale_attempt_fenced_example =
    stale_attempt_fenced (succeeding worker_session noon no_hook end (some "w1") none) sample_db
      running_row sample_db-IsValid refl (inl (ground arith))

-- Two minutes after noon.
abbrev late : ℕ
late = 120002000

abbrev late_instant : Instant
late_instant = record { now = late; clock = late + 1; guard_clock = late + 2 }

abbrev recovering : Settings
recovering = record { lease_token = none; recovery_at = some late }

abbrev recovered : JobRecord
recovered = stamped_at late_instant (taken_back late_instant late running_row running_row)

running_row_guarded_example :
    In running_row (recovered ∷ [])
    ⊎ ((new : JobRecord) × In new (recovered ∷ []) × TakesBack recovering running_row new)
unfolding row_checks lock_consistent finished_consistent texts_in_range update_rows write_row
    guard_transition guard_running guard_recovery holder_of legal_transition same_identity
    taken_back recovered_row fields_eq
running_row_guarded_example =
    running_row_guarded late_instant recovering (is_row 7 3)
      (taken_back late_instant late running_row) (running_row ∷ []) running_row "w2" (inl refl) refl
      refl refl (λ e. cc e) refl

abbrev claimed_first : JobRecord
claimed_first = stamped_at noon (claimed_row noon sample_claim waiting_row)

abbrev claimed_second : JobRecord
claimed_second = stamped_at noon (claimed_row noon sample_claim later_row)

abbrev with_jobs : List JobRecord → Db
with_jobs rows = record sample_db { jobs = rows }

abbrev after_first : Db
after_first = with_jobs (claimed_first ∷ later_row ∷ running_row ∷ finished_row ∷ foreign_row ∷ [])

abbrev after_second : Db
after_second =
    with_jobs (claimed_first ∷ claimed_second ∷ running_row ∷ finished_row ∷ foreign_row ∷ [])

claims_first :
    claim_next_job unlocked worker_session noon no_hook sample_claim sample_db
    ≡ ok (some claimed_first, after_first)
unfolding claim_next_job check_worker_id check_lease_seconds open_transaction authorise_service
    service_authorized claim_candidate claim_returned commit_row pick_first comes_before
    is_candidate row_checks lock_consistent finished_consistent texts_in_range update_rows write_row
    guard_transition guard_claim legal_transition same_identity claimed_row fields_eq
claims_first = refl

claims_second :
    claim_next_job unlocked worker_session noon no_hook sample_claim after_first
    ≡ ok (some claimed_second, after_second)
unfolding claim_next_job check_worker_id check_lease_seconds open_transaction authorise_service
    service_authorized claim_candidate claim_returned commit_row pick_first comes_before
    is_candidate row_checks lock_consistent finished_consistent texts_in_range update_rows write_row
    guard_transition guard_claim legal_transition same_identity claimed_row fields_eq
claims_second = refl

no_double_claim_example : claimed_first.id ≢ claimed_second.id
no_double_claim_example =
    no_double_claim unlocked unlocked worker_session worker_session noon noon no_hook no_hook
      sample_claim sample_claim sample_db sample_db-IsValid claims_first claims_second

abbrev sample_operations : List Operation
sample_operations =
    claim unlocked worker_session noon no_hook sample_claim
    ∷ succeed worker_session noon no_hook claimed_first end none none
    ∷ recover unlocked worker_session late_instant no_hook none 10
    ∷ purge_jobs owner_session late_instant 400 (succeeded ∷ []) 10
    ∷ []

history-owned_example : owned 8 (history sample_operations sample_db).jobs ≡ owned 8 sample_db.jobs
history-owned_example =
    history-owned sample_operations sample_db 8
      (ground arith, (ground arith, (ground arith, (ground arith, tt))))

abbrev cancel_finished : Operation
cancel_finished = cancel owner_session noon no_hook 4

finished_frozen_example :
    ((by_cancel ≡ by_purge) × (row_of 4 (attempt cancel_finished sample_db).jobs ≡ none))
    ⊎ (row_of 4 (attempt cancel_finished sample_db).jobs ≡ some finished_row)
unfolding find_row
finished_frozen_example =
    finished_frozen cancel_finished sample_db 4 finished_row sample_db-IsValid refl refl

abbrev claims : Operation
claims = claim unlocked worker_session noon no_hook sample_claim

attempt-claims : attempt claims sample_db ≡ after_first
unfolding perform
attempt-claims = attempt-ok claims sample_db (ap only_db claims_first)

claimed_found : row_of 1 (attempt claims sample_db).jobs ≡ some claimed_first
unfolding find_row claimed_row
claimed_found = rw attempt-claims refl

attempts_kept_example :
    (claimed_first.organization_id ≡ waiting_row.organization_id)
    × (claimed_first.max_attempts ≡ waiting_row.max_attempts)
    × (waiting_row.attempts ≤ claimed_first.attempts)
    × (claimed_first.attempts ≤ claimed_first.max_attempts)
unfolding find_row
attempts_kept_example =
    attempts_kept claims sample_db 1 waiting_row claimed_first sample_db-IsValid refl claimed_found

abbrev sample_request : Request
sample_request = record {
  job_type = analysis;
  payload = end;
  store_id = none;
  priority = pos 0;
  max_attempts = 3;
  idempotency_key = some "key";
  available_at = none;
  correlation_id = none;
  fresh_id = 20;
  fresh_correlation = 21;
}

abbrev enqueued : JobRecord
enqueued = new_job owner_session noon sample_request

abbrev after_enqueue : Db
after_enqueue = with_jobs (enqueued ∷ sample_db.jobs)

enqueues :
    enqueue_job owner_session noon no_hook sample_request sample_db ≡ ok (enqueued, after_enqueue)
unfolding enqueue_job enqueue_permission validate_payload open_transaction authorise role_allows
    check_store check_jsonb storable_fields insert_or_replay insert_job find_row same_key
    guard_insert row_checks lock_consistent finished_consistent texts_in_range new_job
    membership_role validate_fields fields_width
enqueues = refl

enqueue_replays_example :
    enqueue_job owner_session late_instant no_hook (repeated 30 31 sample_request) after_enqueue
    ≡ ok (enqueued, after_enqueue)
enqueue_replays_example =
    enqueue_replays owner_session noon late_instant no_hook no_hook sample_request 30 31 sample_db
      refl enqueues
