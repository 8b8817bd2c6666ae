-- ===== src/Jobs/Token.antt =====
-- `lease_token` of persistence/jobs.py: the text `<attempts>:<locked_by>`, as code points.
use text.Mathlib.TextEquality.{Char-path}
use mervio.Prelude.{
  ℕ, zero, suc, ◌+◌, ◌-◌, ◌*◌, ◌/◌, ◌%◌, ◌<◌, String, ◌≡◌, refl, sym, ap, ◌∙◌, Bool, true, false,
  ◌&&◌, List, [], ◌∷◌, ◌++◌, arith, ltb, ◌==◌, if◌then◌else◌, Bool-cases, inl, inr,
}
use mathlib.Core.List.{append_assoc}
use mervio.Json.Dump.{codes}

-- `str(n)`, on fuel that `decimal` gives.
decimal_digits : ℕ → ℕ → List ℕ
decimal_digits zero n = []
decimal_digits (suc fuel) n =
    let higher = decimal_digits fuel (n / 10) in
    if ltb n 10 then (48 + n) ∷ [] else higher ++ (48 + n % 10) ∷ []

unfoldable pub decimal : ℕ → List ℕ
unfolding decimal_digits
decimal n = decimal_digits (suc n) n

unfoldable pub lease_token : ℕ → String → List ℕ
unfolding decimal
lease_token attempts holder = decimal attempts ++ 58 ∷ codes holder

-- Equality of two texts, as code points.
abbrev pub codes_eq : List ℕ → List ℕ → Bool
codes_eq [] [] = true
codes_eq (a ∷ s) (b ∷ t) = a == b && codes_eq s t
codes_eq [] (b ∷ t) = false
codes_eq (a ∷ s) [] = false

pub codes_eq_refl : (s : List ℕ) → codes_eq s s ≡ true
codes_eq_refl [] = refl
codes_eq_refl (a ∷ s) = ground (arith, codes_eq_refl s)

pub codes_eq_eq : (s t : List ℕ) → codes_eq s t ≡ true → s ≡ t
codes_eq_eq [] [] h = refl
codes_eq_eq (a ∷ s) (b ∷ t) h = ground (arith, codes_eq_eq s t)
codes_eq_eq [] (b ∷ t) h = cc
codes_eq_eq (a ∷ s) [] h = cc

-- Reads a number up to the first colon: the number, and the text behind the colon.
pub read_token : ℕ → List ℕ → ℕ × List ℕ
read_token n [] = (n, [])
read_token n (c ∷ cs) =
    let rest = read_token (n * 10 + (c - 48)) cs in if c == 58 then (n, cs) else rest

read_token-digit :
    (n d : ℕ) (cs : List ℕ) → d < 10 → read_token n ((48 + d) ∷ cs) ≡ read_token (n * 10 + d) cs
unfolding read_token
read_token-digit n d cs h = elim (Bool-cases (48 + d == 58)) [
  | inl e ↦ absurd (ground arith)
  | inr e ↦ rw e (ap (λ (k : ℕ). read_token k cs) (omega arith))
]

read_token-decimal_digits :
    (fuel n : ℕ) (cs : List ℕ)
    → n < fuel
    → read_token 0 (decimal_digits fuel n ++ cs) ≡ read_token n cs
unfolding decimal_digits
read_token-decimal_digits zero n cs h = elim h [ ]
read_token-decimal_digits (suc fuel) n cs h = elim (Bool-cases (ltb n 10)) [
  | inl e ↦
      rw e (read_token-digit 0 n cs (ground arith) ∙ ap (λ (k : ℕ). read_token k cs) (omega arith))
  | inr e ↦ rw e (
      ap (read_token 0) (append_assoc (decimal_digits fuel (n / 10)) ((48 + n % 10) ∷ []) cs)
      ∙ read_token-decimal_digits fuel (n / 10) ((48 + n % 10) ∷ cs) (ground arith)
      ∙ read_token-digit (n / 10) (n % 10) cs (omega arith)
      ∙ ap (λ (k : ℕ). read_token k cs) (omega arith))
]

-- A lease token gives back the attempt and the holder that it was made of.
pub read_token-lease_token :
    (attempts : ℕ) (holder : String)
    → read_token 0 (lease_token attempts holder) ≡ (attempts, codes holder)
unfolding lease_token read_token
read_token-lease_token attempts holder =
    read_token-decimal_digits (suc attempts) attempts (58 ∷ codes holder) (omega arith)

head_of : List ℕ → ℕ
head_of [] = 0
head_of (a ∷ s) = a

tail_of : List ℕ → List ℕ
tail_of [] = []
tail_of (a ∷ s) = s

pub codes-injective : (s t : String) → codes s ≡ codes t → s ≡ t
unfolding head_of tail_of
codes-injective String.[] String.[] h = refl
codes-injective (String.◌∷◌ c s) (String.◌∷◌ d t) h =
    cc (Char-path c d (ap head_of h), codes-injective s t (ap tail_of h))
codes-injective String.[] (String.◌∷◌ d t) h = cc
codes-injective (String.◌∷◌ c s) String.[] h = cc

-- Two tokens are one text only if they name one attempt and one holder.
pub lease_token-injective :
    (a b : ℕ) (s t : String) → lease_token a s ≡ lease_token b t → (a ≡ b) × (s ≡ t)
lease_token-injective a b s t h =
    let e : ◌≡◌ {A = ℕ × List ℕ} (a, codes s) (b, codes t) =
      sym (read_token-lease_token a s) ∙ ap (read_token 0) h ∙ read_token-lease_token b t in
    (ap (λ (p : ℕ × List ℕ). p.0) e, codes-injective s t (ap (λ (p : ℕ × List ℕ). p.1) e))
