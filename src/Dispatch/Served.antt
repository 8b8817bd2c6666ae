-- ===== src/Dispatch/Served.antt =====
-- Which organizations a query of the dispatcher returns.
use mervio.Database.{Authorization}
use mervio.Dispatch.{served_organizations, is_served, insert_organization}
use mervio.Prelude.{
  ℕ, Bool, List, All, select, ◌∷◌, Option, ◌++◌, ◌≡◌, inr, [], true, All-map, if-elim, none, ltb,
  Bool-cases, opt_eq, ◌⊎◌, ◌==◌, inl, some, arith, refl, ◌<◌,
}

-- An organization has an active authorization of a principal.
abbrev pub Authorized : ℕ → ℕ → List Authorization → Type 0
Authorized principal o [] = ⊥
Authorized principal o (a ∷ as_) =
    ((a.organization_id ≡ o) × (a.service_user_id ≡ principal) × (a.revoked_at ≡ none))
    ⊎ Authorized principal o as_

-- What is true of an organization that is served.
pub record Serving (has_work : ℕ → Bool) (principal : ℕ) (as_ : List Authorization) (o : ℕ)
    : Type 0 where
  pub authorized : Authorized principal o as_
  pub working : has_work o ≡ true

module _ (has_work : ℕ → Bool) (principal : ℕ) where
  Serving-later :
      (a : Authorization) (as_ : List Authorization) (o : ℕ)
      → Serving has_work principal as_ o
      → Serving has_work principal (a ∷ as_) o
  Serving-later a as_ o s = record { authorized = inr s.authorized; working = s.working }

  is_served-Serving :
      (after : Option ℕ) (a : Authorization) (as_ : List Authorization)
      → is_served has_work principal after a ≡ true
      → Serving has_work principal (a ∷ as_) a.organization_id
  unfolding is_served
  is_served-Serving after a as_ h = record {
    authorized = inl (refl, ground arith, none_of a.revoked_at (ground arith));
    working = ground arith;
  }
    where
      none_of : (t : Option ℕ) → opt_eq ◌==◌ t none ≡ true → t ≡ none
      none_of none e = refl
      none_of (some t) e = cc e

  All-insert_organization :
      (P : ℕ → Type 0) (o : ℕ) (os : List ℕ) → P o → All P os → All P (insert_organization o os)
  unfolding insert_organization
  All-insert_organization P o [] p h = (p, tt)
  All-insert_organization P o (q ∷ os) p h =
      if-elim (All P) (ltb q o) (λ _. (h.0, All-insert_organization P o os p h.1)) (λ _. (p, h))

  pub served_organizations-Serving :
      (after : Option ℕ) (as_ : List Authorization)
      → All
          (Serving has_work principal as_)
          (served_organizations (is_served has_work principal after) as_)
  unfolding served_organizations
  served_organizations-Serving after [] = tt
  served_organizations-Serving after (a ∷ as_) =
      let test = is_served has_work principal after in
      let ih =
        All-map (Serving has_work principal as_) (Serving has_work principal (a ∷ as_))
          (Serving-later a as_) (served_organizations test as_)
          (served_organizations-Serving after as_) in
      elim (Bool-cases (test a)) [
        | inl t ↦ rw t (
            All-insert_organization (Serving has_work principal (a ∷ as_)) a.organization_id
              (served_organizations test as_) (is_served-Serving after a as_ t) ih)
        | inr f ↦ rw f ih
      ]

-- Behind the cursor of a dispatcher, or anywhere without one.
abbrev pub Behind : Option ℕ → ℕ → Type 0
Behind none o = Unit
Behind (some cursor) o = cursor < o

is_served-Behind :
    (has_work : ℕ → Bool) (principal : ℕ) (after : Option ℕ) (a : Authorization)
    → is_served has_work principal after a ≡ true
    → Behind after a.organization_id
unfolding is_served
is_served-Behind has_work principal none a h = tt
is_served-Behind has_work principal (some cursor) a h = ground (arith, h)

pub served_organizations-Behind :
    (has_work : ℕ → Bool) (principal : ℕ) (after : Option ℕ) (as_ : List Authorization)
    → All (Behind after) (served_organizations (is_served has_work principal after) as_)
unfolding served_organizations
served_organizations-Behind has_work principal after [] = tt
served_organizations-Behind has_work principal after (a ∷ as_) =
    let test = is_served has_work principal after in
    let ih = served_organizations-Behind has_work principal after as_ in
    elim (Bool-cases (test a)) [
      | inl t ↦ rw t (
          All-insert_organization has_work principal (Behind after) a.organization_id
            (served_organizations test as_) (is_served-Behind has_work principal after a t) ih)
      | inr f ↦ rw f ih
    ]

pub All-kept : (P : ℕ → Type 0) (test : ℕ → Bool) (os : List ℕ) → All P os → All P (select test os)
All-kept P test [] h = tt
All-kept P test (o ∷ os) h =
    if-elim (All P) (test o) (λ _. (h.0, All-kept P test os h.1)) (λ _. All-kept P test os h.1)

pub All-append : (P : ℕ → Type 0) (os ps : List ℕ) → All P os → All P ps → All P (os ++ ps)
All-append P [] ps h k = k
All-append P (o ∷ os) ps h k = (h.0, All-append P os ps h.1 k)
