-- ===== src/Periods/Series.antt =====
-- Series of periods, and the last period that the data close.
use mervio.Periods.Meeting.{Made, previous_period_meets, make_period-Covers, make_period-Made}
use mervio.Prelude.{
  Option, ℕ, List, ◌∷◌, ◌≤◌, [], ◌≡◌, some, length, none, ◌+◌, refl, max, suc, ◌-◌, arith, ◌∙◌,
  zero, if◌then◌else◌, ltb, ◌||◌, inl, ◌⊎◌, inr, ◌<◌, Bool-cases,
}
use mervio.Periods.{
  Period, Grain, build_period_series, last_complete_period, earlier_periods, bind, given_or,
  end_date, previous_period, make_period,
}

-- Periods that follow one another, each starting where the one before ends, all of one grain.
abbrev pub Consecutive : Grain → List Period → Type 0
Consecutive g [] = Unit
Consecutive g (p ∷ []) = Made p × (p.grain ≡ g)
Consecutive g (p ∷ (q ∷ ps)) = Made p × (p.grain ≡ g) × (p.end ≡ q.start) × Consecutive g (q ∷ ps)

-- The last of a list.
abbrev pub latest_of : Period → List Period → Period
latest_of d [] = d
latest_of d (p ∷ ps) = latest_of p ps

list_path : {ps qs : List Period} → some ps ≡ some qs → ps ≡ qs
list_path h = cc

bind-some :
    (o : Option Period) (f : Period → Option (List Period)) {ps : List Period}
    → bind o f ≡ some ps
    → (q : Period) × (o ≡ some q) × (f q ≡ some ps)
bind-some none f h = cc
bind-some (some q) f h = (q, refl, h)

head-Made :
    (g : Grain) (p : Period) (ps : List Period) → Consecutive g (p ∷ ps) → Made p × (p.grain ≡ g)
head-Made g p [] c = c
head-Made g p (q ∷ ps) c = (c.0, c.1)

earlier_periods-Consecutive :
    (n : ℕ) (g : Grain) (oldest : Period) (later : List Period) (d : Period) {ps : List Period}
    → Consecutive g (oldest ∷ later)
    → earlier_periods n oldest later ≡ some ps
    → Consecutive g ps
      × (length ps ≡ n + suc (length later))
      × (latest_of d ps ≡ latest_of oldest later)
unfolding earlier_periods
earlier_periods-Consecutive zero g oldest later d {ps} c h =
    rw (← list_path h) (c, omega arith, refl)
earlier_periods-Consecutive (suc n) g oldest later d {ps} c h =
    let (before, found, rest) = bind-some (previous_period oldest) _ h in
    let (made, grain) = head-Made g oldest later c in
    let (earlier, meets, same, _) = previous_period_meets oldest made found in
    let (series, size, last) =
      earlier_periods-Consecutive n g before (oldest ∷ later) d (earlier, same ∙ grain, meets, c)
        rest in
    (series, omega (arith, size), last)

-- The series that is built of a period that was made holds as many periods as asked for, one at least,
-- each ends where the next starts, and the last is the one given.
pub build_period_series-Consecutive :
    (latest : Period) (count : ℕ) {ps : List Period}
    → Made latest
    → build_period_series latest count ≡ some ps
    → Consecutive latest.grain ps × (length ps ≡ max 1 count) × (latest_of latest ps ≡ latest)
unfolding build_period_series
build_period_series-Consecutive latest count made h =
    let (series, size, last) =
      earlier_periods-Consecutive (count - 1) latest.grain latest [] latest (made, refl) h in
    (series, ground (arith, size), last)

bind-period :
    (o : Option Period) (f : Period → Option Period) {p : Period}
    → bind o f ≡ some p
    → (q : Period) × (o ≡ some q) × (f q ≡ some p)
bind-period none f h = cc
bind-period (some q) f h = (q, refl, h)

-- The candidate is taken where it is closed; otherwise the period before it.
closed_or_previous :
    (latest_day reference : ℕ) (candidate : Period) {p : Period}
    → (if ltb reference (end_date candidate) || ltb latest_day (end_date candidate)
        then previous_period candidate
        else some candidate)
      ≡ some p
    → (previous_period candidate ≡ some p)
      ⊎ ((candidate ≡ p) × (end_date candidate ≤ latest_day) × (end_date candidate ≤ reference))
closed_or_previous latest_day reference candidate h = ground arith

-- The period that is reported as complete ends on the last day of the data at the latest, and, unless
-- the data run ahead of today, today at the latest.
pub last_complete_period-closed :
    (latest_day : ℕ) (today : Option ℕ) (g : Grain) {p : Period}
    → last_complete_period latest_day today g ≡ some p
    → (end_date p ≤ latest_day)
      × ((end_date p ≤ given_or today latest_day) ⊎ (given_or today latest_day < latest_day))
      × Made p
unfolding last_complete_period
last_complete_period-closed latest_day today g {p} h =
    let reference = given_or today latest_day in
    let (candidate, made, chosen) = bind-period (make_period latest_day g) _ h in
    let (inside, grain, _) = make_period-Covers latest_day g made in
    elim (closed_or_previous latest_day reference candidate chosen) [
      | inl before ↦
          let (earlier, meets, _, _) =
            previous_period_meets candidate (make_period-Made latest_day g made) before in
          let early : p.end ≤ latest_day = omega (arith, meets, inside.0) in
          (
            omega (arith, early),
            elim (Bool-cases (ltb reference latest_day)) [
              | inl ahead ↦ inr (ground (arith, ahead))
              | inr not_ahead ↦ inl (ground (arith, early, not_ahead))
            ],
            earlier,
          )
      | inr (same, closed, now) ↦ rw (← same) (closed, inl now, make_period-Made latest_day g made)
    ]
