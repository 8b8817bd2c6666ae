-- ===== src/Members.antt =====
-- The members of an organization (`add_member` and `remove_member` of persistence/tenancy.py).
mod Tests
use mervio.Error.{
  ◌>>◌, Result, guard, not_found, ok, database, err, unique_violation, ◌>>=◌, permission_denied,
  >>=-eq-ok, ok-injective,
}
use mervio.Database.{Tx, User, AuditEvent, Db}
use mervio.Prelude.{
  ℕ, Bool, List, ◌==◌, ◌∷◌, false, true, if◌then◌else◌, ◌&&◌, ◌||◌, ◌+◌, not, [], ◌≡◌, leb, ap, sym,
  ◌∙◌, ==_refl, refl,
}
use mervio.Tenancy.{
  authorise, Role, TenantSession, Membership, membership_role, Permission, manage_members, owner,
  role_allows,
}

-- `CreationHook`: it gets the identifier of what was created.
abbrev pub CreationHook : Type 0
CreationHook = ℕ → List AuditEvent → Result (List AuditEvent)

-- SELECT 1 FROM users WHERE id = %s
unfoldable pub has_user : ℕ → List User → Bool
has_user id [] = false
has_user id (u ∷ us) = u.id == id || has_user id us

-- organization_id = %s AND user_id = %s
abbrev pub is_membership : ℕ → ℕ → Membership → Bool
is_membership organization user m = m.organization_id == organization && m.user_id == user

-- UNIQUE (organization_id, user_id), and the primary key.
unfoldable pub conflicts : Membership → List Membership → Bool
conflicts new [] = false
conflicts new (m ∷ ms) =
    (m.id == new.id || is_membership new.organization_id new.user_id m) || conflicts new ms

unfoldable pub add_member : TenantSession → CreationHook → ℕ → ℕ → Role → Tx ℕ
add_member session hook membership_id user_id role db = do
  authorise db.memberships session manage_members
  guard (has_user user_id db.users) (not_found "user")
  let new : Membership = record {
    id = membership_id;
    organization_id = session.organization_id;
    user_id = user_id;
    role = role;
  }
  guard (not (conflicts new db.memberships)) (database unique_violation)
  trail ← hook membership_id db.audit
  ok (membership_id, record db { memberships = new ∷ db.memberships; audit = trail })

abbrev pub is_owner : Role → Bool
is_owner owner = true
is_owner _ = false

-- The DELETE, and how many rows went.
unfoldable pub delete_memberships : (Membership → Bool) → List Membership → List Membership × ℕ
delete_memberships test [] = ([], 0)
delete_memberships test (m ∷ ms) =
    let (kept, deleted) = delete_memberships test ms in
    if test m then (kept, deleted + 1) else (m ∷ kept, deleted)

unfoldable pub remove_member : TenantSession → ℕ → Tx (Unit {0})
remove_member session user_id db = do
  authorise db.memberships session manage_members
  let (kept, deleted) =
      delete_memberships
        (λ m. is_membership session.organization_id user_id m && not (is_owner m.role))
        db.memberships
  guard (leb 1 deleted) (not_found "membership")
  ok (tt, record db { memberships = kept })

-- A member that was added opens transactions on the organization with exactly the permissions of the
-- role that was given.
pub add_member-opens :
    (session : TenantSession) (hook : CreationHook) (membership_id user_id : ℕ) (role : Role)
    (permission : Permission) (db : Db) {id : ℕ} {after : Db}
    → add_member session hook membership_id user_id role db ≡ ok (id, after)
    → authorise after.memberships
        (record { organization_id = session.organization_id; user_id = user_id })
        permission
      ≡ (if role_allows role permission then ok tt else err permission_denied)
unfolding add_member authorise membership_role
add_member-opens session hook membership_id user_id role permission db h =
    let (_, _, h1) = >>=-eq-ok (authorise db.memberships session manage_members) _ h in
    let (_, _, h2) = >>=-eq-ok (guard (has_user user_id db.users) (not_found "user")) _ h1 in
    let (_, _, h3) =
      >>=-eq-ok (guard (not (conflicts _ db.memberships)) (database unique_violation)) _ h2 in
    let (trail, _, e) = >>=-eq-ok (hook membership_id db.audit) _ h3 in
    ap
      (λ (p : ℕ × Db).
        authorise p.1.memberships
          (record { organization_id = session.organization_id; user_id = user_id }) permission)
      (sym (ok-injective e))
    ∙ rw (authorise, membership_role, ==_refl session.organization_id, ==_refl user_id) refl
