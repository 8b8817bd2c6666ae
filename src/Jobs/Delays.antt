-- ===== src/Jobs/Delays.antt =====
-- The delays of the back-off.
use native.Mathlib.Nat.{pow-suc}
use mervio.Error.{ok}
use mervio.Jobs.Schedule.{backoff_seconds}
use mervio.Prelude.{ℕ, ◌≤◌, ◌≡◌, ◌^◌, ◌*◌, ◌+◌, arith, ◌-◌, min, suc, zero, le→leb, ap, refl}

pow_pos : (n : ℕ) → 1 ≤ 2 ^ n
pow_pos zero = omega arith
pow_pos (suc n) = rw pow-suc (omega (arith, pow_pos n))

doubles : (n base : ℕ) → 1 ≤ n → base * 2 ^ (n + 1 - 1) ≡ 2 * (base * 2 ^ (n - 1))
doubles zero base h = absurd (omega arith)
doubles (suc n) base h =
    let e : suc n + 1 - 1 ≡ suc n = omega arith in
    let f : suc n - 1 ≡ n = omega arith in rw (e, f, pow-suc) (grind arith)

base-le : (n base : ℕ) → base ≤ base * 2 ^ n
base-le n base = grind (arith, pow_pos n)

-- From the first attempt on the back-off gives a delay between its base and its cap, and the next
-- attempt's delay is twice as long, up to the cap.
pub backoff_shape :
    (attempts base cap : ℕ)
    → 1 ≤ attempts
    → 1 ≤ base
    → base ≤ cap
    → (delay : ℕ) × (backoff_seconds attempts base cap ≡ ok delay)
      × (base ≤ delay)
      × (delay ≤ cap)
      × (backoff_seconds (attempts + 1) base cap ≡ ok (min cap (2 * delay)))
unfolding backoff_seconds
backoff_shape attempts base cap h k l = (
  min cap (base * 2 ^ (attempts - 1)),
  rw (le→leb 1 attempts h, le→leb 1 base k, le→leb base cap l) refl,
  omega (arith, base-le (attempts - 1) base),
  omega arith,
  rw
      (
        le→leb 1 (attempts + 1) (omega arith),
        le→leb 1 base k,
        le→leb base cap l,
        doubles attempts base h,
      )
      (ap ok (omega arith)),
)
