-- ===== src/Periods/Tests.antt =====
-- The theorems on periods, on the weeks and months of the year 1.
use mervio.Periods.Meeting.{Made}
use mervio.Prelude.{◌≤◌, ◌∷◌, [], some, ◌≡◌, refl, length, max, ◌⊎◌, ◌<◌}
use mervio.Periods.Series.{
  Consecutive, last_complete_period-closed, build_period_series-Consecutive, latest_of,
}
use mervio.Periods.{
  last_complete_period, end_date, build_period_series, make_period, previous_period, Period,
  earlier_periods, month, month_start, week, week_start, next_month, month_of, first_day,
  days_in_month,
}

abbrev march : Period
march = record { label = (1, 3); start = 59; end = 90; grain = month }

abbrev february : Period
february = record { label = (1, 2); start = 31; end = 59; grain = month }

abbrev january : Period
january = record { label = (1, 1); start = 0; end = 31; grain = month }

march-Made : Made march
unfolding make_period month_start next_month month_of first_day days_in_month
march-Made = refl

months : build_period_series march 3 ≡ some (january ∷ february ∷ march ∷ [])
unfolding build_period_series earlier_periods previous_period make_period month_start next_month
    month_of first_day days_in_month
months = refl

build_period_series-Consecutive_example :
    Consecutive month (january ∷ february ∷ march ∷ [])
    × (length (january ∷ february ∷ march ∷ []) ≡ max 1 3)
    × (latest_of march (january ∷ february ∷ march ∷ []) ≡ march)
build_period_series-Consecutive_example = build_period_series-Consecutive march 3 march-Made months

-- The data end on a Wednesday, so the week before is the last complete one.
abbrev second_week : Period
second_week = record { label = (1, 2); start = 7; end = 14; grain = week }

weeks : last_complete_period 16 (some 20) week ≡ some second_week
unfolding last_complete_period previous_period make_period week_start month_of first_day
    days_in_month
weeks = refl

last_complete_period-closed_example :
    (end_date second_week ≤ 16) × ((end_date second_week ≤ 20) ⊎ (20 < 16)) × Made second_week
last_complete_period-closed_example = last_complete_period-closed 16 (some 20) week weeks
