-- ===== src/Jobs/Schedule.antt =====
-- When a job comes up: the back-off of persistence/jobs.py, and the order of the claim.
use mervio.Error.{Result, guard, ◌>>◌, value_error, ok}
use mervio.Jobs.Record.{JobRecord, int_ltb}
use mervio.Prelude.{
  ℕ, Bool, Option, List, if◌then◌else◌, leb, some, none, ◌∷◌, true, [], ◌&&◌, false, ltb, min, ◌*◌,
  ◌^◌, ◌-◌,
}

abbrev pub backoff_base_seconds : ℕ
backoff_base_seconds = 30

abbrev pub backoff_cap_seconds : ℕ
backoff_cap_seconds = 3600

unfoldable pub backoff_seconds : ℕ → ℕ → ℕ → Result ℕ
backoff_seconds attempts base cap = do
  guard (leb 1 attempts) value_error
  guard (leb 1 base && leb base cap) value_error
  ok (min cap (base * 2 ^ (attempts - 1)))

-- ORDER BY priority DESC, created_at ASC, id ASC
unfoldable pub comes_before : JobRecord → JobRecord → Bool
comes_before a b =
    if int_ltb b.priority a.priority
    then true
    else if int_ltb a.priority b.priority
    then false
    else if ltb a.created_at b.created_at
    then true
    else if ltb b.created_at a.created_at
    then false
    else ltb a.id b.id

-- The first row, in an order, that passes a test.
pick_first_of : (JobRecord → JobRecord → Bool) → JobRecord → Option JobRecord → JobRecord
pick_first_of before row none = row
pick_first_of before row (some other) = if before other row then other else row

unfoldable pub pick_first :
    (JobRecord → JobRecord → Bool) → (JobRecord → Bool) → List JobRecord → Option JobRecord
unfolding pick_first_of
pick_first before test [] = none
pick_first before test (row ∷ rows) =
    let rest = pick_first before test rows in
    if test row then some (pick_first_of before row rest) else rest

-- ORDER BY, as an insertion sort.
unfoldable pub insert_sorted :
    (JobRecord → JobRecord → Bool) → JobRecord → List JobRecord → List JobRecord
insert_sorted before row [] = row ∷ []
insert_sorted before row (other ∷ rows) =
    let rest = insert_sorted before row rows in
    if before other row then other ∷ rest else row ∷ other ∷ rows

unfoldable pub sort_rows : (JobRecord → JobRecord → Bool) → List JobRecord → List JobRecord
sort_rows before [] = []
sort_rows before (row ∷ rows) = insert_sorted before row (sort_rows before rows)

-- `_check_lease_seconds`
unfoldable pub check_lease_seconds : ℕ → Result (Unit {0})
check_lease_seconds lease_seconds =
    guard (leb 1 lease_seconds && leb lease_seconds 86400) value_error

-- `_limit` of persistence/stores.py
unfoldable pub check_limit : ℕ → Result (Unit {0})
check_limit limit = guard (leb 1 limit && leb limit 1000) value_error
