-- ===== src/Worker/Publication.antt =====
-- How the worker publishes the fate of an attempt (`_publish`, `_record_success`, `_record_failure` and
-- the end of `execute` in workers/worker.py). Times are milliseconds of its clock.
use mervio.Worker.Failures.{Kind, Raised, retryable_database_error, job_lease_lost_error}
use mervio.Jobs.Record.{JobRecord, status_eq, queued}
use mervio.Prelude.{
  ℕ, Bool, if◌then◌else◌, Option, min, true, ◌*◌, not, none, suc, false, some, ◌||◌, leb, zero, ◌+◌,
}

-- PUBLISH_MARGIN_SECONDS
abbrev pub publish_margin : ℕ
publish_margin = 1000

-- What one call of the publication does.
pub data Try : Type 0 where
  returned : JobRecord → Try
  denied_lease : Try
  raised : Raised → Try

-- How `_publish` ends: with a row, with `JobLeaseLost`, or with another exception.
pub data Fate : Type 0 where
  published : JobRecord → Fate
  lease_gone : Fate
  unpublished : Raised → Fate

-- `not retryable_database_error(exc) or monotonic() + delay >= deadline - margin`
unfoldable pub gives_up : ℕ → ℕ → ℕ → Raised → Bool
gives_up deadline clock delay e =
    not (retryable_database_error e) || leb deadline (clock + delay + publish_margin)

-- delay = min(delay * 2, 2.0)
abbrev pub next_delay : ℕ → ℕ
next_delay delay = min (delay * 2) 2000

-- The loop of `_publish`, from its n-th try on, with at most as many tries as the fuel: the n-th try
-- does `tries n`, and after its failure the clock reads `clock n`. The result is the number of the last
-- try and how it ended.
unfoldable pub publish_from : (ℕ → Try) → (ℕ → ℕ) → ℕ → ℕ → ℕ → ℕ → Option (ℕ × Fate)
publish_from tries clock deadline zero n delay = none
publish_from tries clock deadline (suc fuel) n delay = elim (tries n) [
  | returned job ↦ some (n, published job)
  | denied_lease ↦ some (n, lease_gone)
  | raised e ↦ elim (gives_up deadline (clock n) delay e) [
    | true ↦ some (n, unpublished e)
    | false ↦ publish_from tries clock deadline fuel (suc n) (next_delay delay)
  ]
]

-- `_publish`
unfoldable pub publish : (ℕ → Try) → (ℕ → ℕ) → ℕ → ℕ → Option (ℕ × Fate)
publish tries clock deadline fuel = publish_from tries clock deadline fuel 0 100

-- The status of a `JobOutcome`.
pub data OutcomeStatus : Type 0 where
  outcome_succeeded outcome_requeued outcome_failed outcome_lost outcome_unrecorded : OutcomeStatus

-- `_record_success`, on the way `_publish` ended.
unfoldable pub record_success : Fate → OutcomeStatus
record_success (published job) = outcome_succeeded
record_success lease_gone = outcome_lost
record_success (unpublished e) = outcome_unrecorded

abbrev pub is_lost_lease : Kind → Bool
is_lost_lease job_lease_lost_error = true
is_lost_lease _ = false

-- `_record_failure`: an error of the handler that is a lost lease is not published.
unfoldable pub record_failure : Raised → Fate → OutcomeStatus
record_failure error fate = if is_lost_lease error.kind then outcome_lost else elim fate [
  | published job ↦ if status_eq job.status queued then outcome_requeued else outcome_failed
  | lease_gone ↦ outcome_lost
  | unpublished e ↦ outcome_unrecorded
]
