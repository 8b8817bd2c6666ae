-- ===== src/Dispatch/Idle.antt =====
-- An empty round of the dispatcher.
use mervio.Jobs.Queue.{coalesce}
use mervio.Error.{ok, >>=-eq-ok, ok-injective, guard, service_identity_error}
use mervio.Jobs.Schedule.{check_limit}
use mervio.Database.{Authorization, Db}
use mervio.Jobs.Guard.{Instant, is_some}
use mervio.Dispatch.{
  insert_organization, served_organizations, Dispatcher, any_of, complete_round,
  ready_organizations, next_organizations, is_served, wrap, organizations, has_ready,
}
use mervio.Prelude.{
  List, ℕ, Bool, ◌≤◌, Option, ◌++◌, select, ◌≢◌, not, take, ◌≡◌, [], arith, All, ◌∷◌, if-elim,
  false, suc, refl, ap, Bool-cases, zero, ltb, inl, sym, none, inr, ◌∙◌, ◌-◌, opt_eq, length, ◌==◌,
  ◌&&◌, some, true,
}

take-nil : (n : ℕ) (os : List ℕ) → 1 ≤ n → take n os ≡ [] → os ≡ []
take-nil zero os p h = absurd (omega (arith, p))
take-nil (suc n) [] p h = refl
take-nil (suc n) (o ∷ os) p h = cc h

append-nil-left : (os ps : List ℕ) → os ++ ps ≡ [] → (os ≡ []) × (ps ≡ [])
append-nil-left [] ps h = (refl, h)
append-nil-left (o ∷ os) ps h = cc h

select-kept : (os : List ℕ) → select (λ o. not (any_of o [])) os ≡ os
select-kept [] = refl
select-kept (o ∷ os) = ap (λ rest. o ∷ rest) (select-kept os)

insert_organization-cons : (o : ℕ) (os : List ℕ) → insert_organization o os ≢ []
unfolding insert_organization
insert_organization-cons o [] = λ h. cc h
insert_organization-cons o (p ∷ ps) =
    if-elim (λ (r : List ℕ). r ≢ []) (ltb p o) (λ _ h. cc h) (λ _ h. cc h)

module _ (test : Authorization → Bool) where
  served_organizations-nil :
      (as_ : List Authorization)
      → served_organizations test as_ ≡ []
      → All (λ a. test a ≡ false) as_
  unfolding served_organizations
  served_organizations-nil [] h = tt
  served_organizations-nil (a ∷ as_) h = elim (Bool-cases (test a)) [
    | inl t ↦
        absurd
          (insert_organization-cons a.organization_id (served_organizations test as_) (rw t at h))
    | inr f ↦ (f, served_organizations-nil as_ (rw f at h))
  ]

module _ (instant : Instant) (now : Option ℕ) (d : Dispatcher) (db : Db) where
  abbrev pub serves : Option ℕ → Authorization → Bool
  serves = is_served (λ o. has_ready o (coalesce now instant.now) db.jobs) d.principal

  batch-pos : {u : Unit {0}} → check_limit d.batch ≡ ok u → 1 ≤ d.batch
  unfolding check_limit
  batch-pos h = ground arith

  ready-nil :
      (after : Option ℕ) {found : List ℕ}
      → ready_organizations instant d.principal after d.batch now db ≡ ok found
      → (1 ≤ d.batch)
        × (found ≡ take d.batch (served_organizations (serves after) db.authorizations))
  unfolding ready_organizations organizations
  ready-nil after h =
      let (_, l, h1) = >>=-eq-ok (check_limit d.batch) _ h in
      let (_, _, h2) =
        >>=-eq-ok
          (guard (opt_eq ◌==◌ db.connected_service (some d.principal)) service_identity_error) _
          h1 in
      (batch-pos l, sym (ok-injective h2))

  ready-idle :
      (after : Option ℕ) {found : List ℕ}
      → ready_organizations instant d.principal after d.batch now db ≡ ok found
      → found ≡ []
      → All (λ a. serves after a ≡ false) db.authorizations
  ready-idle after h e =
      let (p, f) = ready-nil after h in
      served_organizations-nil (serves after) db.authorizations (take-nil d.batch _ p (sym f ∙ e))

  complete_round-idle :
      (first : List ℕ)
      → ready_organizations instant d.principal d.cursor d.batch now db ≡ ok first
      → complete_round instant now d first db ≡ ok []
      → All (λ a. serves none a ≡ false) db.authorizations
  unfolding complete_round wrap
  complete_round-idle first ready h =
      elim (Bool-cases (ltb (length first) d.batch && is_some d.cursor)) [
        | inl short ↦
            let (wrapped, w, e) =
              >>=-eq-ok (ready_organizations instant d.principal none d.batch now db) _
                (rw short at h) in
            let (nothing, rest) = append-nil-left first _ (ok-injective e) in
            let more : take (d.batch - length first) (select (λ o. not (any_of o first)) wrapped)
                ≡ [] =
              rest in
            ready-idle none w (all_fresh first wrapped nothing (ready-nil none w).0 more)
        | inr long ↦ no_cursor d.cursor refl long (ok-injective (rw long at h))
      ]
    where
      all_fresh :
          (os wrapped : List ℕ)
          → os ≡ []
          → 1 ≤ d.batch
          → take (d.batch - length os) (select (λ o. not (any_of o os)) wrapped) ≡ []
          → wrapped ≡ []
      all_fresh [] wrapped e p h =
          sym (select-kept wrapped) ∙ take-nil (d.batch - 0) _ (omega (arith, p)) h
      all_fresh (o ∷ os) wrapped e p h = cc e

      contradiction :
          (os : List ℕ) → os ≡ [] → (ltb (length os) d.batch && true) ≡ false → 1 ≤ d.batch → ⊥
      contradiction [] e f p = ground (arith, f, p)
      contradiction (o ∷ os) e f p = cc e

      no_cursor :
          (c : Option ℕ)
          → d.cursor ≡ c
          → (ltb (length first) d.batch && is_some c) ≡ false
          → first ≡ []
          → All (λ a. serves none a ≡ false) db.authorizations
      no_cursor none e f nothing = ready-idle none (rw e at ready) nothing
      no_cursor (some c) e f nothing =
          absurd (contradiction first nothing f (ready-nil d.cursor ready).0)

  -- When a round returns no organization, there is nothing to do: no organization, before the cursor or
  -- behind it, has an authorization of the service that is not revoked and a job that can be claimed.
  pub next_organizations-idle :
      {next : Dispatcher}
      → next_organizations instant now d db ≡ ok ([], next)
      → All (λ a. serves none a ≡ false) db.authorizations
  unfolding next_organizations
  next_organizations-idle h =
      let (first, ready, h1) =
        >>=-eq-ok (ready_organizations instant d.principal d.cursor d.batch now db) _ h in
      let (all, done, h2) = >>=-eq-ok (complete_round instant now d first db) _ h1 in
      let e : all ≡ [] = ap (λ (p : List ℕ × Dispatcher). p.0) (ok-injective h2) in
      complete_round-idle first ready (rw e at done)
