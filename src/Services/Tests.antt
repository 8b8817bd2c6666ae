-- ===== src/Services/Tests.antt =====
-- An owner authorizes a service, and revokes it.
use mervio.Services.Effects.{revoke_service-shuts}
use mervio.Prelude.{◌∷◌, [], ◌≡◌, ◌≢◌, refl}
use mervio.Error.{ok}
use mervio.Jobs.Sample.{worker_session, sample_db, noon, sample_authorization}
use mervio.Tenancy.{TenantSession, authorise, run_jobs, membership_role, role_allows}
use mervio.Services.{
  revoke_service, authorize_service, AuthorizationHook, revoked, new_authorization, require_service,
  is_service_user, find_authorization, revoke_rows, insert_authorization, is_active_for,
}
use mervio.Database.{Authorization, Db, open_transaction}

abbrev the_owner : TenantSession
the_owner = record { organization_id = 7; user_id = 11 }

abbrev no_trace : AuthorizationHook
no_trace authorization trail = ok trail

abbrev before_authorization : Db
before_authorization = record sample_db { authorizations = [] }

abbrev granted : Authorization
granted = new_authorization the_owner noon 41 3

abbrev after_authorization : Db
after_authorization = record sample_db { authorizations = granted ∷ [] }

authorizes :
    authorize_service the_owner noon no_trace 41 3 before_authorization
    ≡ ok (granted, after_authorization)
unfolding authorize_service authorise membership_role role_allows require_service is_service_user
    find_authorization insert_authorization
authorizes = refl

abbrev withdrawn : Authorization
withdrawn = revoked the_owner noon sample_authorization

abbrev after_revocation : Db
after_revocation = record sample_db { authorizations = withdrawn ∷ [] }

revokes : revoke_service the_owner noon no_trace 3 sample_db ≡ ok (withdrawn, after_revocation)
unfolding revoke_service authorise membership_role role_allows require_service is_service_user
    find_authorization revoke_rows is_active_for
revokes = refl

revoke_service-shuts_example : open_transaction after_revocation worker_session run_jobs ≢ ok tt
revoke_service-shuts_example =
    revoke_service-shuts the_owner noon no_trace 3 run_jobs sample_db revokes
