-- ===== src/Delegation.antt =====
-- The session in which a worker runs a job: that of the member who asked for it (`delegated_session` of
-- persistence/service.py).
use mervio.Json.Stored.{check_jsonb}
use mervio.Json.{Fields}
use mervio.Jobs.Payload.{validate_payload}
use mervio.Error.{
  Result, ◌>>◌, guard, not_found, ok, err, >>=-eq-ok, permission_denied, value_error, database,
  check_violation, unique_violation, ok-injective, tenant_access_denied,
}
use mervio.Prelude.{
  ℕ, ◌≡◌, some, ◌==◌, none, ==_refl, leb, ◌&&◌, true, refl, List, false, arith, ◌∷◌, [], not, sym,
  ap, if◌then◌else◌, Bool, Bool-cases, inl, inr,
}
use mervio.Jobs.Guard.{Instant, guard_insert, row_checks, is_some}
use mervio.Tenancy.{TenantSession, authorise, Membership, Permission, membership_role}
use mervio.Jobs.Record.{JobRecord, priority_in_range}
use mervio.Database.{
  Db, open_transaction, ServiceSession, Hook, tenant, Session, service_authorized,
}
use mervio.Jobs.Queue.{
  enqueue_job, Request, enqueue_permission, check_store, new_job, find_row, same_key,
  insert_or_replay, insert_job, has_id,
}

-- app_service_authorized(organization), of the service that is connected.
unfoldable pub service_reaches : Db → ℕ → Bool
service_reaches db organization = elim db.connected_service [
  | none ↦ false
  | some principal ↦ service_authorized principal organization db.authorizations
]

-- The rows of memberships that a worker sees in an organization: the policy
-- memberships_service_authorized leaves none to a service that the organization does not authorize.
unfoldable pub visible_memberships : Db → ℕ → List Membership
visible_memberships db organization = if service_reaches db organization then db.memberships else []

-- `delegated_session`, on a connection of the worker.
unfoldable pub delegated_session : Db → ServiceSession → JobRecord → Result TenantSession
delegated_session db s job = do
  guard (job.organization_id == s.organization_id) (not_found "job")
  elim job.enqueued_by [
    | none ↦ err permission_denied
    | some user ↦ (do
      authorise (visible_memberships db job.organization_id)
          (record { organization_id = job.organization_id; user_id = user })
          (enqueue_permission job.job_type)
      ok (record { organization_id = job.organization_id; user_id = user }))
  ]

-- The session of the member who asked, or a refusal where the service is not authorized.
abbrev pub session_if : Bool → ℕ → ℕ → Result TenantSession
session_if reaches organization user =
    if reaches
    then ok (record { organization_id = organization; user_id = user })
    else err tenant_access_denied

no_members :
    (session : TenantSession) (permission : Permission)
    → authorise [] session permission ≡ err tenant_access_denied
unfolding authorise membership_role
no_members session permission = refl

delegate :
    (db : Db) (s : ServiceSession) (job : JobRecord) (user : ℕ)
    → (job.organization_id == s.organization_id) ≡ true
    → job.enqueued_by ≡ some user
    → authorise db.memberships
        (record { organization_id = job.organization_id; user_id = user })
        (enqueue_permission job.job_type)
      ≡ ok tt
    → delegated_session db s job
      ≡ session_if (service_reaches db job.organization_id) job.organization_id user
unfolding delegated_session visible_memberships
delegate db s job user o e a = elim (Bool-cases (service_reaches db job.organization_id)) [
  | inl reached ↦ rw (o, e, reached, a) refl
  | inr revoked ↦
      rw
        (
          o,
          e,
          revoked,
          no_members (record { organization_id = job.organization_id; user_id = user })
              (enqueue_permission job.job_type),
        )
        refl
]

no_key : (new row : JobRecord) → new.idempotency_key ≡ none → same_key new row ≡ false
unfolding same_key
no_key new row h = ground (arith, h)

find_row-no_key :
    (new : JobRecord) (rows : List JobRecord)
    → new.idempotency_key ≡ none
    → find_row (same_key new) rows ≡ none
unfolding find_row
find_row-no_key new [] h = refl
find_row-no_key new (row ∷ rows) h = rw (no_key new row h) (find_row-no_key new rows h)

-- Without a key the row is new.
insert_or_replay-fresh :
    (hook : Hook) (new : JobRecord) (db : Db) {job : JobRecord} {after : Db}
    → new.idempotency_key ≡ none
    → insert_or_replay hook new db ≡ ok (job, after)
    → (job ≡ new) × (after.memberships ≡ db.memberships)
unfolding insert_or_replay insert_job
insert_or_replay-fresh hook new db key h =
    let (_, _, h1) = >>=-eq-ok (guard_insert new) _ h in
    let (_, _, h2) = >>=-eq-ok (guard (row_checks new) (database check_violation)) _ h1 in
    let h3 : insert_job hook new db ≡ ok (_, _) = rw (find_row-no_key new db.jobs key) at h2 in
    let (_, _, h4) =
      >>=-eq-ok
        (guard (not (is_some (find_row (has_id new.id) db.jobs))) (database unique_violation)) _
        h3 in
    let (trail, _, h5) = >>=-eq-ok (hook new db.audit) _ h4 in
    let e = ok-injective h5 in
    (sym (ap (λ (p : JobRecord × Db). p.0) e), sym (ap (λ (p : JobRecord × Db). p.1.memberships) e))

new_job-key :
    (session : Session) (i : Instant) (request : Request) (document : Fields)
    → request.idempotency_key ≡ none
    → (new_job session i (record request { payload = document })).idempotency_key ≡ none
unfolding new_job
new_job-key session i request document h = h

asked :
    (t : TenantSession) (i : Instant) (request : Request) (document : Fields) (later : Db)
    (s : ServiceSession) {job : JobRecord}
    → job ≡ new_job (tenant t) i (record request { payload = document })
    → s.organization_id ≡ t.organization_id
    → authorise later.memberships t (enqueue_permission request.job_type) ≡ ok tt
    → delegated_session later s job
      ≡ session_if (service_reaches later t.organization_id) t.organization_id t.user_id
unfolding new_job
asked t i request document later s e same a = rw e (
    delegate later s (new_job (tenant t) i (record request { payload = document })) t.user_id
      (rw same (==_refl t.organization_id)) refl a)

-- A member's request without an idempotency key, once accepted, may be run: as long as nobody's
-- membership changes, a session of the organization that a service runs the job in gets a session of
-- the member who asked, with the right that the job needs, if the organization authorizes the connected
-- service, and is denied access if it does not.
pub enqueued_delegates :
    (t : TenantSession) (i : Instant) (hook : Hook) (request : Request) (db later : Db)
    (s : ServiceSession) {job : JobRecord} {after : Db}
    → request.idempotency_key ≡ none
    → s.organization_id ≡ t.organization_id
    → enqueue_job (tenant t) i hook request db ≡ ok (job, after)
    → later.memberships ≡ after.memberships
    → delegated_session later s job
      ≡ session_if (service_reaches later t.organization_id) t.organization_id t.user_id
unfolding enqueue_job open_transaction
enqueued_delegates t i hook request db later s {job} {after} key same h kept =
    let (document, _, h1) = >>=-eq-ok (validate_payload request.payload) _ h in
    let (_, _, h2) = >>=-eq-ok (guard (priority_in_range request.priority) value_error) _ h1 in
    let (_, _, h3) =
      >>=-eq-ok (guard (leb 1 request.max_attempts && leb request.max_attempts 20) value_error) _
        h2 in
    let (_, opened, h4) =
      >>=-eq-ok (authorise db.memberships t (enqueue_permission request.job_type)) _ h3 in
    let (_, _, h5) = >>=-eq-ok (check_store db (tenant t) request.store_id) _ h4 in
    let (_, _, h6) = >>=-eq-ok (check_jsonb document) _ h5 in
    let (new, memberships) =
      insert_or_replay-fresh hook (new_job (tenant t) i (record request { payload = document })) db
        (new_job-key (tenant t) i request document key) h6 in
    asked t i request document later s new same (rw (kept, memberships) opened)
