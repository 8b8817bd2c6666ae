-- ===== src/Jobs/Refusals.antt =====
-- The errors of the operations of persistence/jobs.py that change no row.
use mervio.Prelude.{if◌then◌else◌}
use mervio.Error.{Error, ok, not_found}
use mervio.Jobs.Record.{JobRecord}
use mervio.Prelude.{
  ℕ, ◌≡◌, Bool, Option, String, true, List, All, some, ◌∷◌, false, none, [], refl, if◌then◌else◌,
}
use mervio.Jobs.Attempt.{owns}
use mervio.Jobs.Guard.{row_checks, update_rows, Instant, Settings}
use mervio.Jobs.Queue.{find_row, is_row}
use mervio.Database.{Session, Db, organization_of}

pub update_rows-none :
    (i : Instant) (s : Settings) (test : JobRecord → Bool) (set : JobRecord → JobRecord)
    (rows : List JobRecord)
    → All (λ row. test row ≡ false) rows
    → update_rows i s test set rows ≡ ok (rows, [])
unfolding update_rows
update_rows-none i s test set [] h = refl
update_rows-none i s test set (row ∷ rows) h = rw (update_rows-none i s test set rows h.1, h.0) refl

-- What a caller is told of a job that it does not see, or sees and may not change.
unfoldable pub refusal : Session → ℕ → Error → Db → Error
refusal session id e db = elim (find_row (is_row (organization_of session) id) db.jobs) [
  | none ↦ not_found "job"
  | some row ↦ e
]

-- A row that is checked and is not that of the attempt.
abbrev pub NotOwned : Session → JobRecord → Option String → JobRecord → Type 0
NotOwned session job holder row =
    (row_checks row ≡ true) × (owns (organization_of session) job holder row ≡ false)
