-- ===== src/Database.antt =====
-- The tables that the modelled operations read and write, and how a session opens a transaction on
-- them (persistence/tenancy.py and persistence/service.py).
use mervio.Prelude.{
  ℕ, Bool, List, false, true, Option, ◌∷◌, ◌==◌, opt_eq, some, ◌&&◌, ◌||◌, none, [],
}
use mervio.Jobs.Record.{JobRecord}
use mervio.Error.{
  Result, ok, guard, ◌>>◌, permission_denied, not_found, service_identity_error,
  tenant_access_denied,
}
use mervio.Tenancy.{Membership, TenantSession, Permission, read, run_jobs, authorise}

-- A row of `stores`, by its key.
pub record Store : Type 0 where
  pub organization_id : ℕ
  pub id : ℕ

-- A row of `service_authorizations`.
pub record Authorization : Type 0 where
  pub id : ℕ
  pub organization_id : ℕ
  pub service_user_id : ℕ
  pub granted_by : ℕ
  pub granted_at : ℕ
  pub revoked_by : Option ℕ
  pub revoked_at : Option ℕ

-- A row of `users`, by its key: a person or a service.
pub record User : Type 0 where
  pub id : ℕ
  pub is_service : Bool

pub data Action : Type 0 where
  job_enqueued job_claimed job_succeeded job_failed job_requeued job_recovered : Action
  job_cancelled : Action
  import_started import_succeeded import_failed : Action
  analysis_started analysis_succeeded analysis_failed : Action
  purge_started purge_completed : Action
  organization_created member_added store_created connection_created : Action
  service_authorized_ service_revoked : Action

pub data Outcome : Type 0 where
  started outcome_succeeded outcome_failed : Outcome

pub data ActorType : Type 0 where
  user system worker : ActorType

-- A row of `audit_events` about a job, without its metadata.
pub record AuditEvent : Type 0 where
  pub organization_id : ℕ
  pub store_id : Option ℕ
  pub actor_type : ActorType
  pub actor_id : Option ℕ
  pub action : Action
  pub resource_id : ℕ
  pub correlation_id : ℕ
  pub outcome : Outcome
  pub on_behalf_of : Option ℕ

-- The database, and `connected_service`: what `app_current_service_id()` answers on the connection.
pub record Db : Type 0 where
  pub jobs : List JobRecord
  pub users : List User
  pub stores : List Store
  pub memberships : List Membership
  pub authorizations : List Authorization
  pub connected_service : Option ℕ
  pub audit : List AuditEvent

pub record ServiceSession : Type 0 where
  pub organization_id : ℕ
  pub principal : ℕ

pub data Session : Type 0 where
  tenant : TenantSession → Session
  service : ServiceSession → Session

abbrev pub organization_of : Session → ℕ
organization_of (tenant t) = t.organization_id
organization_of (service s) = s.organization_id

-- `session.user_id`: of a service session, its principal.
abbrev pub user_of : Session → ℕ
user_of (tenant t) = t.user_id
user_of (service s) = s.principal

-- SERVICE_PERMISSIONS
abbrev pub is_service_permission : Permission → Bool
is_service_permission read = true
is_service_permission run_jobs = true
is_service_permission _ = false

-- app_service_authorized(organization), for one service.
unfoldable pub service_authorized : ℕ → ℕ → List Authorization → Bool
service_authorized principal organization [] = false
service_authorized principal organization (a ∷ as_) =
    (a.organization_id == organization
      && (a.service_user_id == principal && opt_eq ◌==◌ a.revoked_at none))
    || service_authorized principal organization as_

unfoldable pub authorise_service : Db → ServiceSession → Permission → Result (Unit {0})
authorise_service db session permission = do
  guard (is_service_permission permission) permission_denied
  guard (opt_eq ◌==◌ db.connected_service (some session.principal)) service_identity_error
  guard (service_authorized session.principal session.organization_id db.authorizations)
      tenant_access_denied

-- `session.transaction(permission)`, up to the `yield`.
unfoldable pub open_transaction : Db → Session → Permission → Result (Unit {0})
open_transaction db (tenant t) permission = authorise db.memberships t permission
open_transaction db (service s) permission = authorise_service db s permission

-- A body under `with session.transaction(permission)`: what it raises rolls the database back, so
-- only a result that is `ok` carries a new database.
abbrev pub Tx : Type 0 → Type 0
Tx A = Db → Result (A × Db)

-- `TransitionHook`: what the caller adds to the audit trail in the same transaction. Without a hook
-- the trail stays.
abbrev pub Hook : Type 0
Hook = JobRecord → List AuditEvent → Result (List AuditEvent)

abbrev pub no_hook : Hook
no_hook job trail = ok trail

-- SELECT … FROM stores WHERE organization_id = %s AND id = %s
unfoldable pub has_store : ℕ → ℕ → List Store → Bool
has_store organization store [] = false
has_store organization store (s ∷ ss) =
    (s.organization_id == organization && s.id == store) || has_store organization store ss

unfoldable pub fetch_store : Db → Session → ℕ → Result (Unit {0})
fetch_store db session store =
    guard (has_store (organization_of session) store db.stores) (not_found "store")
