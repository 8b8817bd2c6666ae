-- ===== src/Periods/Calendar.antt =====
-- The calendar: months follow one another, and each day is in one of them.
use mervio.Periods.{month_of, days_in_month, first_day}
use mervio.Prelude.{
  ℕ, leb, ◌≤◌, suc, ◌<◌, ◌≡◌, false, arith, refl, ◌⊎◌, inl, inr, if-elim, zero, leb→le,
}

days_in_month_positive : (m : ℕ) → 1 ≤ days_in_month m
unfolding days_in_month
days_in_month_positive m = ground arith

pub first_day_grows : (m : ℕ) → first_day m < first_day (suc m)
unfolding first_day
first_day_grows m = omega (arith, days_in_month_positive m)

first_day_zero : first_day 0 ≡ 0
unfolding first_day
first_day_zero = refl

not_reached : (a b : ℕ) → leb a b ≡ false → b < a
not_reached a b h = ground arith

below_zero : (m : ℕ) → m ≤ 0 → m ≡ 0
below_zero m h = omega arith

le_cases : (m n : ℕ) → m ≤ suc n → (m ≡ suc n) ⊎ (m ≤ n)
le_cases m n h = ground arith

compare_months : (a b : ℕ) → (suc a ≤ b) ⊎ ((suc b ≤ a) ⊎ (a ≡ b))
compare_months a b = ground arith

-- A day is in its month.
pub month_of_holds :
    (day : ℕ) → (first_day (month_of day) ≤ day) × (day < first_day (suc (month_of day)))
unfolding month_of
month_of_holds zero =
    let start : first_day 0 ≡ 0 = first_day_zero in
    (omega (arith, start), omega (arith, start, first_day_grows 0))
month_of_holds (suc day) =
    let (low, high) = month_of_holds day in
    let m = month_of day in
    if-elim (λ k. (first_day k ≤ suc day) × (suc day < first_day (suc k)))
      (leb (first_day (suc m)) (suc day))
      (λ e.
        let reached = leb→le (first_day (suc m)) (suc day) e in
        (reached, omega (arith, high, first_day_grows (suc m))))
      (λ e. (omega (arith, low), not_reached (first_day (suc m)) (suc day) e))

first_day_monotone : (m n : ℕ) → m ≤ n → first_day m ≤ first_day n
first_day_monotone m zero h = rw (below_zero m h) (omega arith)
first_day_monotone m (suc n) h = elim (le_cases m n h) [
  | inl same ↦ rw same (omega arith)
  | inr less ↦ omega (arith, first_day_monotone m n less, first_day_grows n)
]

-- And in no other.
pub month_of_unique : (day m : ℕ) → first_day m ≤ day → day < first_day (suc m) → month_of day ≡ m
month_of_unique day m low high =
    let (from, to) = month_of_holds day in
    elim (compare_months (month_of day) m) [
      | inl less ↦ absurd (omega (arith, first_day_monotone (suc (month_of day)) m less, to, low))
      | inr (inl more) ↦
          absurd (omega (arith, first_day_monotone (suc m) (month_of day) more, high, from))
      | inr (inr same) ↦ same
    ]
