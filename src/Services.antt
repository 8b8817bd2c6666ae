-- ===== src/Services.antt =====
-- The authorizations that an organization gives to services (persistence/service.py).
pub mod Effects
mod Tests
use mervio.Jobs.Guard.{Instant}
use mervio.Error.{Result, guard, ◌>>=◌, ◌>>◌, ok, not_found, err}
use mervio.Prelude.{
  ℕ, List, Bool, ◌==◌, some, none, Option, ◌∷◌, ◌&&◌, false, if◌then◌else◌, opt_eq, [], ◌||◌,
}
use mervio.Tenancy.{TenantSession, authorise, manage_services}
use mervio.Database.{Authorization, Db, Tx, User, AuditEvent}

-- `AuthorizationHook`
abbrev pub AuthorizationHook : Type 0
AuthorizationHook = Authorization → List AuditEvent → Result (List AuditEvent)

-- SELECT 1 FROM users WHERE id = %s AND kind = 'service'
unfoldable pub is_service_user : ℕ → List User → Bool
is_service_user id [] = false
is_service_user id (u ∷ us) = (u.id == id && u.is_service) || is_service_user id us

-- `_require_service`
unfoldable pub require_service : Db → ℕ → Result (Unit {0})
require_service db id = guard (is_service_user id db.users) (not_found "service")

-- organization_id = %s AND service_user_id = %s AND revoked_at IS NULL
unfoldable pub is_active_for : ℕ → ℕ → Authorization → Bool
is_active_for organization service_id a =
    a.organization_id == organization
    && (a.service_user_id == service_id && opt_eq ◌==◌ a.revoked_at none)

unfoldable pub find_authorization :
    (Authorization → Bool) → List Authorization → Option Authorization
find_authorization test [] = none
find_authorization test (a ∷ as_) = if test a then some a else find_authorization test as_

-- The row that the INSERT proposes, with the identifier that `uuid4` draws.
unfoldable pub new_authorization : TenantSession → Instant → ℕ → ℕ → Authorization
new_authorization session i id service_id = record {
  id = id;
  organization_id = session.organization_id;
  service_user_id = service_id;
  granted_by = session.user_id;
  granted_at = i.now;
  revoked_by = none;
  revoked_at = none;
}

unfoldable pub insert_authorization : AuthorizationHook → Authorization → Tx Authorization
insert_authorization hook new db = do
  trail ← hook new db.audit
  ok (new, record db { authorizations = new ∷ db.authorizations; audit = trail })

-- `authorize_service`: ON CONFLICT DO NOTHING, and then the SELECT of the active row.
unfoldable pub authorize_service :
    TenantSession → Instant → AuthorizationHook → ℕ → ℕ → Tx Authorization
authorize_service session i hook id service_id db = do
  authorise db.memberships session manage_services
  require_service db service_id
  elim (find_authorization (is_active_for session.organization_id service_id) db.authorizations) [
    | some active ↦ ok (active, db)
    | none ↦ insert_authorization hook (new_authorization session i id service_id) db
  ]

unfoldable pub revoked : TenantSession → Instant → Authorization → Authorization
revoked session i a = record a { revoked_by = some session.user_id; revoked_at = some i.clock }

-- The UPDATE of the active rows.
unfoldable pub revoke_rows :
    (Authorization → Bool)
    → (Authorization → Authorization)
    → List Authorization
    → List Authorization
revoke_rows test set [] = []
revoke_rows test set (a ∷ as_) =
    let rest = revoke_rows test set as_ in if test a then set a ∷ rest else a ∷ rest

-- `revoke_service`
unfoldable pub revoke_service : TenantSession → Instant → AuthorizationHook → ℕ → Tx Authorization
revoke_service session i hook service_id db = do
  authorise db.memberships session manage_services
  require_service db service_id
  elim (find_authorization (is_active_for session.organization_id service_id) db.authorizations) [
    | none ↦ err (not_found "service_authorization")
    | some active ↦ (do
      let row : Authorization = revoked session i active
      trail ← hook row db.audit
      ok (
        row,
        record db {
          authorizations =
              revoke_rows (is_active_for session.organization_id service_id) (revoked session i)
                db.authorizations;
          audit = trail;
        },
      ))
  ]
