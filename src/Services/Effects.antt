-- ===== src/Services/Effects.antt =====
-- What an authorization of a service and its revocation do to the transactions of the service.
use mervio.Error.{ok, >>=-eq-ok, ok-injective}
use mervio.Jobs.Guard.{Instant}
use mervio.Tenancy.{TenantSession, Permission, authorise, manage_services}
use mervio.Database.{
  Authorization, open_transaction, authorise_service, service_authorized, Db, is_service_permission,
  service, ServiceSession,
}
use mervio.Prelude.{
  ℕ, Bool, List, ◌≡◌, false, some, true, ◌∷◌, ◌≢◌, Bool-cases, inl, arith, inr, ==_refl,
  Option-cases, [], refl, sym, ap, ◌∙◌,
}
use mervio.Services.{
  revoke_service, insert_authorization, authorize_service, revoke_rows, find_authorization,
  new_authorization, is_active_for, AuthorizationHook, revoked, require_service,
}

module _ (organization service_id : ℕ) where
  abbrev active : Authorization → Bool
  active = is_active_for organization service_id

  find_authorization-authorized :
      (as_ : List Authorization) {a : Authorization}
      → find_authorization active as_ ≡ some a
      → service_authorized service_id organization as_ ≡ true
  unfolding find_authorization service_authorized is_active_for
  find_authorization-authorized [] h = cc h
  find_authorization-authorized (a ∷ as_) h = elim (Bool-cases (active a)) [
    | inl t ↦ ground (arith, t)
    | inr f ↦ ground (arith, find_authorization-authorized as_ (rw f at h))
  ]

  revoke_rows-unauthorized :
      (session : TenantSession) (i : Instant) (as_ : List Authorization)
      → service_authorized service_id organization (revoke_rows active (revoked session i) as_)
        ≡ false
  unfolding revoke_rows service_authorized is_active_for revoked
  revoke_rows-unauthorized session i [] = refl
  revoke_rows-unauthorized session i (a ∷ as_) = elim (Bool-cases (active a)) [
    | inl t ↦ ground (arith, t, revoke_rows-unauthorized session i as_)
    | inr f ↦ ground (arith, f, revoke_rows-unauthorized session i as_)
  ]

insert_authorization-opens :
    (hook : AuthorizationHook) (session : TenantSession) (i : Instant) (id service_id : ℕ) (db : Db)
    {a : Authorization} {after : Db}
    → insert_authorization hook (new_authorization session i id service_id) db ≡ ok (a, after)
    → (after.connected_service ≡ db.connected_service)
      × (service_authorized service_id session.organization_id after.authorizations ≡ true)
unfolding insert_authorization new_authorization service_authorized
insert_authorization-opens hook session i id service_id db h =
    let (trail, _, e) = >>=-eq-ok (hook (new_authorization session i id service_id) db.audit) _ h in
    let same = sym (ok-injective e) in
    (
      ap (λ (p : Authorization × Db). p.1.connected_service) same,
      ap
            (λ (p : Authorization × Db).
              service_authorized service_id session.organization_id p.1.authorizations)
            same
          ∙ ground (arith, ==_refl session.organization_id, ==_refl service_id),
    )

authorised :
    (db : Db) (s : ServiceSession) (permission : Permission)
    → is_service_permission permission ≡ true
    → db.connected_service ≡ some s.principal
    → service_authorized s.principal s.organization_id db.authorizations ≡ true
    → authorise_service db s permission ≡ ok tt
unfolding authorise_service
authorised db s permission p c a = ground (arith, p, c, a, ==_refl s.principal)

opens-authorized :
    (db : Db) (s : ServiceSession) (permission : Permission)
    → authorise_service db s permission ≡ ok tt
    → service_authorized s.principal s.organization_id db.authorizations ≡ true
unfolding authorise_service
opens-authorized db s permission h = ground arith

-- Once an owner has authorized a service, the service opens transactions on the organization, on a
-- connection of its own, with each permission that services have.
pub authorize_service-opens :
    (session : TenantSession) (i : Instant) (hook : AuthorizationHook) (id service_id : ℕ)
    (permission : Permission) (db : Db) {a : Authorization} {after : Db}
    → authorize_service session i hook id service_id db ≡ ok (a, after)
    → db.connected_service ≡ some service_id
    → is_service_permission permission ≡ true
    → open_transaction after
        (service (record { organization_id = session.organization_id; principal = service_id }))
        permission
      ≡ ok tt
unfolding authorize_service open_transaction
authorize_service-opens session i hook id service_id permission db h connected allowed =
    let (_, _, h1) = >>=-eq-ok (authorise db.memberships session manage_services) _ h in
    let (_, _, h2) = >>=-eq-ok (require_service db service_id) _ h1 in
    let s : ServiceSession = record {
      organization_id = session.organization_id;
      principal = service_id;
    } in
    elim (Option-cases
      (find_authorization (is_active_for session.organization_id service_id) db.authorizations)) [
        | inr p ↦
            let same = sym (ok-injective (rw p.1 at h2)) in
            authorised _ s permission allowed
              (ap (λ (q : Authorization × Db). q.1.connected_service) same ∙ connected)
              (ap
                  (λ (q : Authorization × Db).
                    service_authorized service_id session.organization_id q.1.authorizations)
                  same
                ∙ find_authorization-authorized session.organization_id service_id db.authorizations
                    p.1)
        | inl missing ↦
            let (c, a) =
              insert_authorization-opens hook session i id service_id db (rw missing at h2) in
            authorised _ s permission allowed (c ∙ connected) a
      ]

-- Once an owner has revoked a service, the service opens no transaction on the organization any more,
-- with any permission.
pub revoke_service-shuts :
    (session : TenantSession) (i : Instant) (hook : AuthorizationHook) (service_id : ℕ)
    (permission : Permission) (db : Db) {a : Authorization} {after : Db}
    → revoke_service session i hook service_id db ≡ ok (a, after)
    → open_transaction after
        (service (record { organization_id = session.organization_id; principal = service_id }))
        permission
      ≢ ok tt
unfolding revoke_service open_transaction
revoke_service-shuts session i hook service_id permission db {a} {after} h opens =
    let (_, _, h1) = >>=-eq-ok (authorise db.memberships session manage_services) _ h in
    let (_, _, h2) = >>=-eq-ok (require_service db service_id) _ h1 in
    let test = is_active_for session.organization_id service_id in
    elim (Option-cases (find_authorization test db.authorizations)) [
      | inl missing ↦ cc (rw missing at h2)
      | inr p ↦
          let (trail, _, e) = >>=-eq-ok (hook (revoked session i p.0) db.audit) _ (rw p.1 at h2) in
          let s : ServiceSession = record {
            organization_id = session.organization_id;
            principal = service_id;
          } in
          let same = sym (ok-injective e) in
          cc (
            opens-authorized after s permission opens,
            ap
                (λ (q : Authorization × Db).
                  service_authorized service_id session.organization_id q.1.authorizations)
                same,
            revoke_rows-unauthorized session.organization_id service_id session i db.authorizations,
          )
    ]
