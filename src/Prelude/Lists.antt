-- ===== src/Prelude/Lists.antt =====
-- Lists measured by native numbers, under the library's names, and lists related row by row.
use Prim.Native.Nat.{ℕ, zero, suc, ◌≤◌, ◌+◌}
use mathlib.Core.Path.{◌≡◌}
use mathlib.Core.Bool.{Bool}
use mathlib.Core.List.{List, [], ◌∷◌, ◌++◌}
use native.Mathlib.Omega.{arith}
use mervio.Prelude.Tests.{if◌then◌else◌}

module _ {ℓ} {A : Type ℓ} where
  abbrev pub length : List A → ℕ
  length [] = 0
  length (x ∷ xs) = suc (length xs)

  abbrev pub take : ℕ → List A → List A
  take zero xs = []
  take (suc n) [] = []
  take (suc n) (x ∷ xs) = x ∷ take n xs

  -- The rows that a test keeps.
  abbrev pub select : (A → Bool) → List A → List A
  select p [] = []
  select p (x ∷ xs) = let rest = select p xs in if p x then x ∷ rest else rest

  pub length-take : (n : ℕ) (xs : List A) → length (take n xs) ≤ n
  length-take zero xs = omega arith
  length-take (suc n) [] = omega arith
  length-take (suc n) (x ∷ xs) = omega (arith, length-take n xs)

  pub length-append : (xs ys : List A) → length (xs ++ ys) ≡ length xs + length ys
  length-append [] ys = omega arith
  length-append (x ∷ xs) ys = omega (arith, length-append xs ys)

module _ {ℓ κ} {A : Type ℓ} where
  abbrev pub All : (A → Type κ) → List A → Type κ
  All P [] = Unit
  All P (x ∷ xs) = P x × All P xs

-- Two lists of the same length, related place by place.
module _ {ℓ} {A : Type ℓ} where
  abbrev pub Each : (A → A → Type 0) → List A → List A → Type 0
  Each R [] [] = Unit
  Each R (x ∷ xs) (y ∷ ys) = R x y × Each R xs ys
  Each R [] (y ∷ ys) = ⊥
  Each R (x ∷ xs) [] = ⊥

  pub Each-refl : (R : A → A → Type 0) → ((x : A) → R x x) → (xs : List A) → Each R xs xs
  Each-refl R r [] = tt
  Each-refl R r (x ∷ xs) = (r x, Each-refl R r xs)

  pub Each-map :
      (R S : A → A → Type 0) (f : (x y : A) → R x y → S x y) (xs ys : List A)
      → Each R xs ys
      → Each S xs ys
  Each-map R S f [] [] h = tt
  Each-map R S f (x ∷ xs) (y ∷ ys) h = (f x y h.0, Each-map R S f xs ys h.1)
  Each-map R S f [] (y ∷ ys) h = h
  Each-map R S f (x ∷ xs) [] h = h

  pub Each-trans :
      (R : A → A → Type 0) (t : (x y z : A) → R x y → R y z → R x z) (xs ys zs : List A)
      → Each R xs ys
      → Each R ys zs
      → Each R xs zs
  Each-trans R t [] [] [] h k = tt
  Each-trans R t (x ∷ xs) (y ∷ ys) (z ∷ zs) h k = (t x y z h.0 k.0, Each-trans R t xs ys zs h.1 k.1)
  Each-trans R t [] [] (z ∷ zs) h k = k
  Each-trans R t [] (y ∷ ys) zs h k = absurd h
  Each-trans R t (x ∷ xs) [] zs h k = absurd h
  Each-trans R t (x ∷ xs) (y ∷ ys) [] h k = absurd k

  pub All-Each :
      (R : A → A → Type 0) (P : A → Type 0) (f : (x y : A) → R x y → P x → P y) (xs ys : List A)
      → Each R xs ys
      → All P xs
      → All P ys
  All-Each R P f [] [] h a = tt
  All-Each R P f (x ∷ xs) (y ∷ ys) h a = (f x y h.0 a.0, All-Each R P f xs ys h.1 a.1)
  All-Each R P f [] (y ∷ ys) h a = absurd h
  All-Each R P f (x ∷ xs) [] h a = absurd h

pub All-map {ℓ} :
    {A : Type ℓ} (P Q : A → Type 0) (f : (x : A) → P x → Q x) (xs : List A) → All P xs → All Q xs
All-map P Q f [] h = tt
All-map P Q f (x ∷ xs) h = (f x h.0, All-map P Q f xs h.1)
