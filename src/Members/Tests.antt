-- ===== src/Members/Tests.antt =====
-- An owner adds a member.
use mervio.Prelude.{false, ◌≡◌, ◌∷◌, refl}
use mervio.Error.{ok}
use mervio.Jobs.Sample.{sample_db}
use mervio.Tenancy.{authorise, TenantSession, viewer, membership_role, role_allows}
use mervio.Database.{Db}
use mervio.Members.{add_member, CreationHook, has_user, conflicts}

abbrev the_owner : TenantSession
the_owner = record { organization_id = 7; user_id = 11 }

abbrev no_trace : CreationHook
no_trace id trail = ok trail

abbrev with_user : Db
with_user = record sample_db { users = record { id = 12; is_service = false } ∷ sample_db.users }

abbrev with_member : Db
with_member = record with_user {
  memberships =
      record { id = 61; organization_id = 7; user_id = 12; role = viewer } ∷ sample_db.memberships;
}

adds : add_member the_owner no_trace 61 12 viewer with_user ≡ ok (61, with_member)
unfolding add_member authorise membership_role role_allows has_user conflicts
adds = refl
