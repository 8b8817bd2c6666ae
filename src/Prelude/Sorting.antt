-- ===== src/Prelude/Sorting.antt =====
-- Lists that hold a value, and an ORDER BY.
use Prim.Native.Nat.{ℕ, zero, suc, ◌+◌}
use native.Mathlib.Omega.{arith}
use mathlib.Core.Path.{◌≡◌}
use mathlib.Core.Bool.{Bool, true, not}
use mathlib.Core.List.{List, [], ◌∷◌}
use mervio.Prelude.Tests.{if◌then◌else◌, if-elim}
use mervio.Prelude.Lists.{All, take, select, length}

-- A list holds a value.
pub data Within {ℓ} {A : Type ℓ} (x : A) : List A → Type ℓ where
  at_head : (xs : List A) → Within x (x ∷ xs)
  in_tail : (y : A) (xs : List A) → Within x xs → Within x (y ∷ xs)

module _ {ℓ} {A : Type ℓ} where
  -- ORDER BY, by insertion.
  abbrev pub insert_by : (A → A → Bool) → A → List A → List A
  insert_by before x [] = x ∷ []
  insert_by before x (y ∷ ys) =
      let rest = insert_by before x ys in if before x y then x ∷ (y ∷ ys) else y ∷ rest

  abbrev pub sort_by : (A → A → Bool) → List A → List A
  sort_by before [] = []
  sort_by before (x ∷ xs) = insert_by before x (sort_by before xs)

  pub All-insert_by :
      (P : A → Type ℓ) (before : A → A → Bool) (x : A) (ys : List A)
      → P x
      → All P ys
      → All P (insert_by before x ys)
  All-insert_by P before x [] p h = (p, tt)
  All-insert_by P before x (y ∷ ys) p h =
      if-elim (All P) (before x y) (λ e. (p, h)) (λ e. (h.0, All-insert_by P before x ys p h.1))

  pub All-sort_by :
      (P : A → Type ℓ) (before : A → A → Bool) (xs : List A) → All P xs → All P (sort_by before xs)
  All-sort_by P before [] h = tt
  All-sort_by P before (x ∷ xs) h =
      All-insert_by P before x (sort_by before xs) h.0 (All-sort_by P before xs h.1)

  pub All-take : (P : A → Type ℓ) (n : ℕ) (xs : List A) → All P xs → All P (take n xs)
  All-take P zero xs h = tt
  All-take P (suc n) [] h = tt
  All-take P (suc n) (x ∷ xs) h = (h.0, All-take P n xs h.1)

  -- What a selection keeps, of what held of every row.
  pub All-select :
      (P : A → Type ℓ) (p : A → Bool) (xs : List A)
      → All P xs
      → All (λ x. P x × (p x ≡ true)) (select p xs)
  All-select P p [] h = tt
  All-select P p (x ∷ xs) h =
      if-elim (All (λ y. P y × (p y ≡ true))) (p x) (λ e. ((h.0, e), All-select P p xs h.1))
        (λ e. All-select P p xs h.1)

  pub length-select :
      (p : A → Bool) (xs : List A)
      → length (select p xs) + length (select (λ x. not (p x)) xs) ≡ length xs
  length-select p [] = omega arith
  length-select p (x ∷ xs) = ground (arith, length-select p xs)

  pub All-Within : (P : A → Type ℓ) (xs : List A) → ((x : A) → Within x xs → P x) → All P xs
  All-Within P [] f = tt
  All-Within P (x ∷ xs) f = (f x (at_head xs), All-Within P xs (λ y h. f y (in_tail x xs h)))

  pub Within-All : (P : A → Type ℓ) (xs : List A) (x : A) → All P xs → Within x xs → P x
  Within-All P [] x a h = elim h [ ]
  Within-All P (y ∷ ys) x a (at_head xs) = a.0
  Within-All P (y ∷ ys) x a (in_tail z xs h) = Within-All P ys x a.1 h

  pub Within-select :
      (p : A → Bool) (xs : List A) (x : A) → Within x xs → p x ≡ true → Within x (select p xs)
  Within-select p [] x h e = elim h [ ]
  Within-select p (y ∷ ys) x (at_head xs) e = rw e (at_head (select p ys))
  Within-select p (y ∷ ys) x (in_tail z xs h) e =
      if-elim (Within x) (p y) (λ d. in_tail y (select p ys) (Within-select p ys x h e))
        (λ d. Within-select p ys x h e)
