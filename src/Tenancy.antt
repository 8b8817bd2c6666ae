-- ===== src/Tenancy.antt =====
-- persistence/tenancy.py: roles, the permission matrix, and the check that opens a transaction.
use mervio.Prelude.{
  ℕ, ◌≡◌, Bool, true, ◌&&◌, Option, none, some, List, [], ◌∷◌, arith, leb, ◌==◌, if◌then◌else◌,
}
use mervio.Error.{Result, ok, err, tenant_access_denied, permission_denied}

pub data Role : Type 0 where
  owner admin analyst viewer : Role

unfoldable pub rank : Role → ℕ
rank viewer = 0
rank analyst = 1
rank admin = 2
rank owner = 3

pub data Permission : Type 0 where
  read import_data run_analysis read_provenance run_jobs manage_connections : Permission
  manage_stores read_audit manage_members purge_data manage_services : Permission

unfoldable pub minimum_role : Permission → Role
minimum_role read = viewer
minimum_role import_data = analyst
minimum_role run_analysis = analyst
minimum_role read_provenance = analyst
minimum_role run_jobs = analyst
minimum_role manage_connections = admin
minimum_role manage_stores = admin
minimum_role read_audit = admin
minimum_role manage_members = owner
minimum_role purge_data = owner
minimum_role manage_services = owner

unfoldable pub role_allows : Role → Permission → Bool
unfolding rank minimum_role
role_allows role permission = leb (rank (minimum_role permission)) (rank role)

pub record Membership : Type 0 where
  pub id : ℕ
  pub organization_id : ℕ
  pub user_id : ℕ
  pub role : Role

-- `TenantContext` and the session over it; identifiers are the 128-bit numbers of the UUIDs.
pub record TenantSession : Type 0 where
  pub organization_id : ℕ
  pub user_id : ℕ

-- SELECT role FROM memberships WHERE organization_id = %s AND user_id = %s
unfoldable pub membership_role : ℕ → ℕ → List Membership → Option Role
membership_role organization user [] = none
membership_role organization user (m ∷ ms) =
    if m.organization_id == organization && m.user_id == user
    then some m.role
    else membership_role organization user ms

-- What `TenantSession.transaction` verifies before it yields the connection.
unfoldable pub authorise : List Membership → TenantSession → Permission → Result (Unit {0})
unfolding membership_role role_allows
authorise memberships session permission =
    elim (membership_role session.organization_id session.user_id memberships) [
      | none ↦ err tenant_access_denied
      | some role ↦ if role_allows role permission then ok tt else err permission_denied
    ]

-- A higher role is allowed whatever a lower one is.
pub role_allows_mono :
    (low high : Role) (permission : Permission)
    → leb (rank low) (rank high) ≡ true
    → role_allows low permission ≡ true
    → role_allows high permission ≡ true
unfolding role_allows
role_allows_mono low high permission h k = ground arith
