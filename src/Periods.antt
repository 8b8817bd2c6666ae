-- ===== src/Periods.antt =====
-- The periods of the analytics (analytics/periods.py), with the calendar of `datetime.date` that they
-- use. A date is the number of days since 1 January of the year 1, a Monday, and a `datetime` at
-- midnight is its date. What raises, for an unknown grain or for a date before the first one, is none.
pub mod Calendar
pub mod Meeting
pub mod Series
mod Tests
use mervio.Prelude.{
  Option, ℕ, ◌/◌, ◌-◌, ◌+◌, List, if◌then◌else◌, some, suc, Bool, ◌%◌, zero, ◌==◌, none, ◌∷◌, ◌*◌,
  leb, ltb, [], ◌&&◌, ◌||◌, not,
}

-- Months count from January of the year 1.
abbrev pub year_of : ℕ → ℕ
year_of m = m / 12 + 1

abbrev pub is_leap : ℕ → Bool
is_leap year = (year % 4 == 0) && (not (year % 100 == 0) || (year % 400 == 0))

abbrev pub short_month : ℕ → Bool
short_month k = k == 3 || (k == 5 || (k == 8 || k == 10))

unfoldable pub days_in_month : ℕ → ℕ
days_in_month m =
    if m % 12 == 1
    then (if is_leap (year_of m) then 29 else 28)
    else if short_month (m % 12)
    then 30
    else 31

-- The first day of a month.
unfoldable pub first_day : ℕ → ℕ
first_day zero = 0
first_day (suc m) = first_day m + days_in_month m

-- The month of a date.
unfoldable pub month_of : ℕ → ℕ
month_of zero = 0
month_of (suc day) = let m = month_of day in if leb (first_day (suc m)) (suc day) then suc m else m

pub data Grain : Type 0 where
  week month other_grain : Grain

-- `Period`; the label is its year and its number, of a week or of a month.
pub record Period : Type 0 where
  pub label : ℕ × ℕ
  pub start : ℕ
  pub end : ℕ
  pub grain : Grain

-- `end_date`: the day of the second before `end`.
abbrev pub end_date : Period → ℕ
end_date p = p.end - 1

-- `week_start`; `day.weekday()` is 0 on a Monday.
unfoldable pub week_start : ℕ → ℕ
week_start day = day - day % 7

unfoldable pub month_start : ℕ → ℕ
month_start day = first_day (month_of day)

unfoldable pub next_month : ℕ → ℕ
next_month day = first_day (suc (month_of day))

-- `isocalendar()[:2]` of a Monday: the year and the week are those of its Thursday.
abbrev iso_week : ℕ → ℕ × ℕ
iso_week monday =
    let year = year_of (month_of (monday + 3)) in
    (year, (monday + 3 - first_day ((year - 1) * 12)) / 7 + 1)

abbrev pub week_from : ℕ → Period
week_from start = record { label = iso_week start; start = start; end = start + 7; grain = week }

abbrev pub month_from : ℕ → Period
month_from start = record {
  label = (year_of (month_of start), month_of start % 12 + 1);
  start = start;
  end = next_month start;
  grain = month;
}

unfoldable pub make_period : ℕ → Grain → Option Period
make_period anchor week = some (week_from (week_start anchor))
make_period anchor month = some (month_from (month_start anchor))
make_period anchor other_grain = none

unfoldable pub previous_period : Period → Option Period
previous_period p = if leb 1 p.start then make_period (p.start - 1) p.grain else none

unfoldable pub next_period : Period → Option Period
next_period p = make_period (end_date p + 1) p.grain

abbrev pub bind {ℓ κ} : {A : Type ℓ} {B : Type κ} → Option A → (A → Option B) → Option B
bind none f = none
bind (some a) f = f a

-- `shift_periods` for a count that is positive, or negative.
unfoldable pub shift_back : Period → ℕ → Option Period
shift_back p zero = some p
shift_back p (suc n) = bind (shift_back p n) previous_period

unfoldable pub shift_forward : Period → ℕ → Option Period
shift_forward p zero = some p
shift_forward p (suc n) = bind (shift_forward p n) next_period

abbrev pub given_or : Option ℕ → ℕ → ℕ
given_or none d = d
given_or (some today) d = today

unfoldable pub last_complete_period : ℕ → Option ℕ → Grain → Option Period
last_complete_period latest_day today grain = bind (make_period latest_day grain) λ candidate.
    if ltb (given_or today latest_day) (end_date candidate) || ltb latest_day (end_date candidate)
    then previous_period candidate
    else some candidate

-- `build_period_series`: the loop puts a period before the others, as the final `reversed` leaves them.
unfoldable pub earlier_periods : ℕ → Period → List Period → Option (List Period)
earlier_periods zero oldest later = some (oldest ∷ later)
earlier_periods (suc n) oldest later =
    bind (previous_period oldest) λ before. earlier_periods n before (oldest ∷ later)

unfoldable pub build_period_series : Period → ℕ → Option (List Period)
build_period_series latest count = earlier_periods (count - 1) latest []

-- `year_over_year_period`: a month of the year 1 has none before it.
unfoldable pub year_over_year_period : Period → Option Period
year_over_year_period p = elim p.grain [
  | week ↦ if leb 364 p.start then make_period (p.start - 364) week else none
  | month ↦
      if leb 12 (month_of p.start)
      then make_period (first_day (month_of p.start - 12)) month
      else none
  | other_grain ↦
      if leb 12 (month_of p.start)
      then make_period (first_day (month_of p.start - 12)) month
      else none
]
