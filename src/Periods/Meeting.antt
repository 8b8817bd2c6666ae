-- ===== src/Periods/Meeting.antt =====
-- A period holds its days, and the periods before and after it meet it.
use mervio.Periods.Calendar.{month_of_unique, first_day_grows, month_of_holds}
use mervio.Prelude.{
  ℕ, ◌≡◌, some, ◌≤◌, leb, false, arith, ◌-◌, ◌<◌, ap, Bool-cases, suc, ◌+◌, refl, inl, leb→le, inr,
  sym, ◌∙◌,
}
use mervio.Periods.{
  next_month, Period, month_start, next_period, make_period, previous_period, week_start, Grain,
  month_of, first_day, week_from, month_from, week, month, other_grain,
}

week_start_holds : (day : ℕ) → (week_start day ≤ day) × (day < week_start day + 7)
unfolding week_start
week_start_holds day = (omega arith, omega arith)

week_start_same : (a b : ℕ) → week_start a ≤ b → b < week_start a + 7 → week_start b ≡ week_start a
unfolding week_start
week_start_same a b low high = omega (arith, low, high)

month_start_month : (day : ℕ) → month_of (month_start day) ≡ month_of day
unfolding month_start
month_start_month day =
    month_of_unique (first_day (month_of day)) (month_of day) (omega arith)
      (first_day_grows (month_of day))

next_month_start : (day : ℕ) → next_month (month_start day) ≡ first_day (suc (month_of day))
unfolding next_month
next_month_start day = rw (month_start_month day) refl

month_start_same :
    (a b : ℕ) → month_start a ≤ b → b < next_month (month_start a) → month_start b ≡ month_start a
unfolding month_start
month_start_same a b low high =
    ap first_day (month_of_unique b (month_of a) low (rw (next_month_start a) at high))

month_start_holds : (day : ℕ) → (month_start day ≤ day) × (day < next_month (month_start day))
unfolding month_start
month_start_holds day =
    let (low, high) = month_of_holds day in (low, rw (next_month_start day) high)

-- What a period holds: the days from its start until its end.
abbrev pub Covers : Period → ℕ → Type 0
Covers p day = (p.start ≤ day) × (day < p.end)

some_period : {p q : Period} → some p ≡ some q → p ≡ q
some_period h = cc

-- A period that is made from a day holds the day, and it is made from each of its days.
pub make_period-Covers :
    (a : ℕ) (g : Grain) {p : Period}
    → make_period a g ≡ some p
    → Covers p a × (p.grain ≡ g) × ((b : ℕ) → Covers p b → make_period b g ≡ some p)
unfolding make_period
make_period-Covers a week h =
    rw (← some_period h)
      (week_start_holds a, refl, λ b c. ap (λ s. some (week_from s)) (week_start_same a b c.0 c.1))
make_period-Covers a month h =
    rw (← some_period h) (
      month_start_holds a,
      refl,
      λ b c. ap (λ s. some (month_from s)) (month_start_same a b c.0 c.1),
    )
make_period-Covers a other_grain h = absurd (cc h)

-- A period that `make_period` makes.
abbrev pub Made : Period → Type 0
Made p = make_period p.start p.grain ≡ some p

pub make_period-Made : (a : ℕ) (g : Grain) {p : Period} → make_period a g ≡ some p → Made p
make_period-Made a g {p} h =
    let (inside, grain, again) = make_period-Covers a g h in
    ap (make_period p.start) grain ∙ again p.start (omega arith, omega (arith, inside.0, inside.1))

beyond : (a b : ℕ) → leb a b ≡ false → b < a
beyond a b h = ground arith

ends : (n : ℕ) → 1 ≤ n → n - 1 + 1 ≡ n
ends n h = omega (arith, h)

previous_period_made :
    (p : Period) {q : Period}
    → previous_period p ≡ some q
    → (1 ≤ p.start) × (make_period (p.start - 1) p.grain ≡ some q)
unfolding previous_period
previous_period_made p h = ground arith

-- The period before one that was made was made too, of the same grain, ends where it starts, and has it
-- as its next.
pub previous_period_meets :
    (p : Period) {q : Period}
    → Made p
    → previous_period p ≡ some q
    → Made q × (q.end ≡ p.start) × (q.grain ≡ p.grain) × (next_period q ≡ some p)
unfolding next_period
previous_period_meets p {q} made h =
    let (positive, from) = previous_period_made p h in
    let (inside, grain, again) = make_period-Covers (p.start - 1) p.grain from in
    let meets : q.end ≡ p.start = elim (Bool-cases (leb q.end p.start)) [
      | inl reached ↦ omega (arith, leb→le q.end p.start reached, inside.1, positive)
      | inr over ↦
          let q_is_p : some q ≡ some p =
            sym (again p.start (omega (arith, inside.0), beyond q.end p.start over)) ∙ made in
          let starts : q.start ≡ p.start = ap (λ (r : Period). r.start) (some_period q_is_p) in
          absurd (omega (arith, starts, inside.0, positive))
    ] in
    (
      make_period-Made (p.start - 1) p.grain from,
      meets,
      grain,
      rw (meets, grain, ends p.start positive) made,
    )
