-- ===== src/Error.antt =====
-- The errors of errors.py and persistence/errors.py, and fallible code as a value.
use mervio.Prelude.{ap, String, ◌≡◌, refl, ◌⊎◌, inl, inr, Bool, true, false}

-- Which rule of the database refused a write: a message of the trigger, or a constraint.
pub data Refusal : Type 0 where
  identity_immutable finished_immutable illegal_transition attempts_decrease : Refusal
  claim_one_attempt lease_ends_after_start only_claim_counts only_holder_renews : Refusal
  only_lease_changes expired_not_renewed never_shortened one_day_at_most : Refusal
  only_holder_finishes recovered_never_completed born_queued : Refusal
  check_violation unique_violation : Refusal
  human_actor human_principal row_policy invalid_document : Refusal

pub data Error : Type 0 where
  not_found : String → Error
  tenant_access_denied permission_denied : Error
  job_state_error job_lease_lost payload_rejected service_identity_error : Error
  value_error : Error
  database : Refusal → Error

pub data Result {ℓ} (A : Type ℓ) : Type ℓ where
  err : Error → Result A
  ok : A → Result A

pub Result-cases {ℓ} :
    {A : Type ℓ} (m : Result A) → ((a : A) × (m ≡ ok a)) ⊎ ((e : Error) × (m ≡ err e))
Result-cases (ok a) = inl (a, refl)
Result-cases (err e) = inr (e, refl)

unok {ℓ} : {A : Type ℓ} → A → Result A → A
unok d (ok a) = a
unok d (err e) = d

pub ok-injective {ℓ} : {A : Type ℓ} {a b : A} → ok a ≡ ok b → a ≡ b
unfolding unok
ok-injective {a} h = ap (unok a) h

-- `if not test: raise e`
abbrev pub guard : Bool → Error → Result (Unit {0})
guard false refusal = err refusal
guard true refusal = ok tt

pub guard-eq-ok : (b : Bool) (e : Error) {u : Unit {0}} → guard b e ≡ ok u → b ≡ true
guard-eq-ok true e h = refl
guard-eq-ok false e h = cc

infixl 5 ◌>>=◌ ◌>>◌
abbrev pub ◌>>=◌ {ℓ κ} : {X : Type ℓ} {Y : Type κ} → Result X → (X → Result Y) → Result Y
err raised >>= next = err raised
ok value >>= next = next value

pub >>=-eq-ok {ℓ κ} :
    {X : Type ℓ} {Y : Type κ} (m : Result X) (next : X → Result Y) {y : Y}
    → (m >>= next) ≡ ok y
    → (x : X) × (m ≡ ok x) × (next x ≡ ok y)
>>=-eq-ok (err raised) next h = cc
>>=-eq-ok (ok value) next h = (value, refl, h)

-- A statement for its check alone.
abbrev pub ◌>>◌ {ℓ} : {Y : Type ℓ} → Result (Unit {0}) → Result Y → Result Y
check >> then_ = check >>= λ _. then_
