-- ===== src/Jobs/Idempotence.antt =====
-- The idempotency key of `enqueue_job`.
use mervio.Json.Stored.{check_jsonb}
use mervio.Jobs.Payload.{validate_payload}
use mervio.Tenancy.{Permission, authorise}
use mervio.Jobs.Trigger.{type_eq_refl}
use mathlib.Core.Path.{subst}
use mervio.Error.{
  ok, >>=-eq-ok, guard, database, check_violation, unique_violation, value_error, ok-injective,
  guard-eq-ok,
}
use mervio.Database.{
  Hook, Db, open_transaction, authorise_service, Session, fetch_store, tenant, service,
}
use mervio.Prelude.{
  Bool, List, ◌≡◌, true, ap, arith, some, opt_eq_refl, str_eq, str_eq_refl, ==_refl, ◌∷◌, ℕ, refl,
  Option, not, none, Option-cases, inl, leb, ◌&&◌, inr, ◌∙◌,
}
use mervio.Jobs.Guard.{
  is_some, guard_insert, Instant, row_checks, texts_in_range, lock_consistent, finished_consistent,
}
use mervio.Jobs.Record.{JobRecord, priority_in_range}
use mervio.Jobs.Queue.{
  insert_or_replay, same_key, insert_job, find_row, enqueue_job, check_store, Request, has_id,
  enqueue_permission, new_job,
}

same_key_self : (new : JobRecord) → is_some new.idempotency_key ≡ true → same_key new new ≡ true
unfolding same_key
same_key_self new k = ground (
  arith,
  k,
  type_eq_refl new.job_type,
  opt_eq_refl str_eq str_eq_refl new.idempotency_key,
  ==_refl new.organization_id,
)

-- What an operation on jobs leaves alone: all that the checks of a transaction read.
pub record SameAccess (db after : Db) : Type 0 where
  pub memberships : after.memberships ≡ db.memberships
  pub stores : after.stores ≡ db.stores
  pub authorizations : after.authorizations ≡ db.authorizations
  pub connected_service : after.connected_service ≡ db.connected_service

record Replayable (new job : JobRecord) (db after : Db) : Type 0 where
  found : find_row (same_key new) after.jobs ≡ some job
  access : SameAccess db after

find_row-here :
    (test : JobRecord → Bool) (row : JobRecord) (rows : List JobRecord)
    → test row ≡ true
    → find_row test (row ∷ rows) ≡ some row
unfolding find_row
find_row-here test row rows t = rw t refl

-- After an INSERT or a replay, the row of the key is the one that was returned.
insert_job-Replayable :
    (hook : Hook) (new : JobRecord) (db : Db) {job : JobRecord} {after : Db}
    → is_some new.idempotency_key ≡ true
    → insert_job hook new db ≡ ok (job, after)
    → Replayable new job db after
unfolding insert_job
insert_job-Replayable hook new db {job} {after} k h =
    let (_, _, h1) =
      >>=-eq-ok
        (guard (not (is_some (find_row (has_id new.id) db.jobs))) (database unique_violation)) _
        h in
    let (trail, _, h2) = >>=-eq-ok (hook new db.audit) _ h1 in
    let e = ok-injective h2 in
    subst (λ (p : JobRecord × Db). Replayable new p.0 db p.1) e
      (record {
        found = find_row-here (same_key new) new db.jobs (same_key_self new k);
        access = record {
          memberships = refl;
          stores = refl;
          authorizations = refl;
          connected_service = refl;
        };
      })

insert_or_replay-Replayable :
    (hook : Hook) (new : JobRecord) (db : Db) {job : JobRecord} {after : Db}
    → is_some new.idempotency_key ≡ true
    → insert_or_replay hook new db ≡ ok (job, after)
    → Replayable new job db after
unfolding insert_or_replay
insert_or_replay-Replayable hook new db {job} {after} k h =
    let (_, _, h1) = >>=-eq-ok (guard_insert new) _ h in
    let (_, _, h2) = >>=-eq-ok (guard (row_checks new) (database check_violation)) _ h1 in
    elim (Option-cases (find_row (same_key new) db.jobs)) [
      | inl fresh ↦ insert_job-Replayable hook new db k (rw fresh at h2)
      | inr p ↦
          subst (λ (q : JobRecord × Db). Replayable new q.0 db q.1) (ok-injective (rw p.1 at h2))
            (record {
              found = p.1;
              access = record {
                memberships = refl;
                stores = refl;
                authorizations = refl;
                connected_service = refl;
              };
            })
    ]

open_transaction-SameAccess :
    (session : Session) (permission : Permission) (db after : Db)
    → SameAccess db after
    → open_transaction after session permission ≡ open_transaction db session permission
unfolding open_transaction authorise_service
open_transaction-SameAccess (tenant t) permission db after a =
    ap (λ m. authorise m t permission) a.memberships
open_transaction-SameAccess (service s) permission db after a =
    ground (arith, a.connected_service, a.authorizations)

check_store-SameAccess :
    (session : Session) (store : Option ℕ) (db after : Db)
    → SameAccess db after
    → check_store after session store ≡ check_store db session store
unfolding check_store fetch_store
check_store-SameAccess session none db after a = refl
check_store-SameAccess session (some store) db after a = rw a.stores refl

-- The second time the row of the key is found, and nothing is written.
insert_or_replay-again :
    (hook : Hook) (new : JobRecord) (db : Db) {job : JobRecord}
    → guard_insert new ≡ ok tt
    → row_checks new ≡ true
    → find_row (same_key new) db.jobs ≡ some job
    → insert_or_replay hook new db ≡ ok (job, db)
unfolding insert_or_replay
insert_or_replay-again hook new db born checks found = rw born (rw checks (rw found refl))

-- A request repeated: other fresh identifiers, the same demand.
abbrev pub repeated : ℕ → ℕ → Request → Request
repeated id correlation request = record request { fresh_id = id; fresh_correlation = correlation }

-- The constraints and the key of a new row depend on the request only.
repeated-row_checks :
    (session : Session) (i i' : Instant) (request : Request) (id correlation : ℕ)
    → row_checks (new_job session i' (repeated id correlation request))
      ≡ row_checks (new_job session i request)
unfolding row_checks new_job texts_in_range lock_consistent finished_consistent
repeated-row_checks session i i' request id correlation = refl

repeated-guard_insert :
    (session : Session) (i : Instant) (request : Request) (id correlation : ℕ)
    → guard_insert (new_job session i (repeated id correlation request)) ≡ ok tt
unfolding guard_insert new_job
repeated-guard_insert session i request id correlation = refl

repeated-same_key :
    (session : Session) (i i' : Instant) (request : Request) (id correlation : ℕ)
    → same_key (new_job session i' (repeated id correlation request))
      ≡ same_key (new_job session i request)
unfolding same_key new_job
repeated-same_key session i i' request id correlation = refl

insert_or_replay-repeated :
    (session : Session) (i i' : Instant) (hook' : Hook) (request : Request) (id correlation : ℕ)
    (hook : Hook) (db : Db) {job : JobRecord} {after : Db}
    → is_some request.idempotency_key ≡ true
    → insert_or_replay hook (new_job session i request) db ≡ ok (job, after)
    → insert_or_replay hook' (new_job session i' (repeated id correlation request)) after
      ≡ ok (job, after)
unfolding insert_or_replay
insert_or_replay-repeated session i i' hook' request id correlation hook db {job} {after} k h =
    let new = new_job session i request in
    let back = insert_or_replay-Replayable hook new db (unfold new_job in k) h in
    let (_, _, h1) = >>=-eq-ok (guard_insert new) _ h in
    let (_, checked, _) = >>=-eq-ok (guard (row_checks new) (database check_violation)) _ h1 in
    insert_or_replay-again hook' (new_job session i' (repeated id correlation request)) after
      (repeated-guard_insert session i' request id correlation)
      (repeated-row_checks session i i' request id correlation
        ∙ guard-eq-ok (row_checks new) _ checked)
      (ap (λ t. find_row t after.jobs) (repeated-same_key session i i' request id correlation)
        ∙ back.found)

-- A request with an idempotency key that was accepted may be repeated, at any instant: it returns the
-- job of the first time and leaves the database, the audit trail included, as it is.
pub enqueue_replays :
    (session : Session) (i i' : Instant) (hook hook' : Hook) (request : Request)
    (id correlation : ℕ) (db : Db) {job : JobRecord} {after : Db}
    → is_some request.idempotency_key ≡ true
    → enqueue_job session i hook request db ≡ ok (job, after)
    → enqueue_job session i' hook' (repeated id correlation request) after ≡ ok (job, after)
unfolding enqueue_job
enqueue_replays session i i' hook hook' request id correlation db {job} {after} k h =
    let (document, valid, h1) = >>=-eq-ok (validate_payload request.payload) _ h in
    let (_, priority, h2) =
      >>=-eq-ok (guard (priority_in_range request.priority) value_error) _ h1 in
    let (_, attempts, h3) =
      >>=-eq-ok (guard (leb 1 request.max_attempts && leb request.max_attempts 20) value_error) _
        h2 in
    let (_, opened, h4) =
      >>=-eq-ok (open_transaction db session (enqueue_permission request.job_type)) _ h3 in
    let (_, stored, h5) = >>=-eq-ok (check_store db session request.store_id) _ h4 in
    let (_, storable, h6) = >>=-eq-ok (check_jsonb document) _ h5 in
    let new = new_job session i (record request { payload = document }) in
    let back = insert_or_replay-Replayable hook new db (unfold new_job in k) h6 in
    rw valid (
      rw priority (
        rw attempts (
          rw
            (open_transaction-SameAccess session (enqueue_permission request.job_type) db after
                back.access
              ∙ opened)
            (rw (check_store-SameAccess session request.store_id db after back.access ∙ stored) (
              rw storable (
                insert_or_replay-repeated session i i' hook' (record request { payload = document })
                  id correlation hook db k h6))))))
