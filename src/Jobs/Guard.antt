-- ===== src/Jobs/Guard.antt =====
-- The `jobs` table as the database keeps it: the constraints of revision 0004_jobs and the trigger
-- `jobs_guard_transition` of revision 0006_job_leases.
use mervio.Prelude.{
  [], ◌∷◌, ℕ, ◌+◌, ◌*◌, String, Bool, true, false, ◌&&◌, ◌||◌, not, Option, none, some, List, ltb,
  leb, ◌==◌, if◌then◌else◌, str_eq, opt_eq, max,
}
use mervio.Error.{
  Refusal, identity_immutable, finished_immutable, illegal_transition, attempts_decrease,
  claim_one_attempt, lease_ends_after_start, only_claim_counts, only_holder_renews,
  only_lease_changes, expired_not_renewed, never_shortened, one_day_at_most, only_holder_finishes,
  recovered_never_completed, born_queued, check_violation, database, Result, ok, guard, ◌>>=◌, ◌>>◌,
}
use mervio.Json.{fields_eq}
use mervio.Json.Dump.{str_len}
use mervio.Jobs.Record.{
  JobRecord, JobStatus, queued, running, succeeded, failed, cancelled, type_eq, status_eq,
  is_terminal_status, int_eq, priority_in_range,
}
use mervio.Jobs.Token.{lease_token, codes_eq}

-- What the clock gives to one statement: `now()`, the start of the transaction, and two readings of
-- `clock_timestamp()`, by the statement and by the trigger after it.
pub record Instant : Type 0 where
  pub now : ℕ
  pub clock : ℕ
  pub guard_clock : ℕ

-- The settings that are local to the transaction: `app.job_lease_token`, where the empty text is
-- NULL, and `app.job_lease_recovery_at`.
pub record Settings : Type 0 where
  pub lease_token : Option (List ℕ)
  pub recovery_at : Option ℕ

abbrev pub seconds : ℕ → ℕ
seconds n = n * 1000000

abbrev pub one_day : ℕ
one_day = 86400000000

abbrev pub is_some {ℓ} : {A : Type ℓ} → Option A → Bool
is_some none = false
is_some (some a) = true

-- Comparisons that SQL takes as a condition: an unknown result counts as false.
abbrev pub sql_lt : Option ℕ → Option ℕ → Bool
sql_lt (some a) (some b) = ltb a b
sql_lt none _ = false
sql_lt (some a) none = false

abbrev pub sql_le : Option ℕ → Option ℕ → Bool
sql_le (some a) (some b) = leb a b
sql_le none _ = false
sql_le (some a) none = false

-- GREATEST ignores NULL.
abbrev pub greatest : Option ℕ → ℕ → ℕ
greatest none b = b
greatest (some a) b = max a b

-- A CHECK on the length of a nullable text passes on NULL.
abbrev pub length_between : ℕ → ℕ → Option String → Bool
length_between low high none = true
length_between low high (some s) = leb low (str_len s) && leb (str_len s) high

abbrev pub same : Bool → Bool → Bool
same true b = b
same false b = not b

-- finished_at >= started_at, or one of them is NULL
abbrev pub ordered : Option ℕ → Option ℕ → Bool
ordered (some a) (some b) = leb a b
ordered none _ = true
ordered (some a) none = true

unfoldable pub lock_consistent : JobRecord → Bool
lock_consistent job =
    same (status_eq job.status running) (is_some job.locked_at)
    && (same (is_some job.locked_at) (is_some job.locked_by)
        && same (is_some job.locked_at) (is_some job.lease_expires_at))

unfoldable pub finished_consistent : JobRecord → Bool
finished_consistent job = same (is_terminal_status job.status) (is_some job.finished_at)

unfoldable pub texts_in_range : JobRecord → Bool
texts_in_range job =
    length_between 1 200 job.idempotency_key
    && (length_between 1 100 job.locked_by
        && (length_between 1 100 job.last_error_code && length_between 0 2000 job.last_error))

-- The CHECK constraints of the table.
unfoldable pub row_checks : JobRecord → Bool
row_checks job =
    priority_in_range job.priority
    && (leb 1 job.max_attempts
        && (leb job.max_attempts 20
            && (leb job.attempts job.max_attempts
                && (texts_in_range job
                    && (lock_consistent job
                        && (finished_consistent job
                            && ((not (is_some job.result) || status_eq job.status succeeded)
                                && ordered job.started_at job.finished_at)))))))

unfoldable pub same_identity : JobRecord → JobRecord → Bool
same_identity old new =
    new.id == old.id
    && (new.organization_id == old.organization_id
        && (type_eq new.job_type old.job_type
            && (fields_eq new.payload old.payload
                && (opt_eq ◌==◌ new.store_id old.store_id
                    && (opt_eq str_eq new.idempotency_key old.idempotency_key
                        && (new.correlation_id == old.correlation_id
                            && (opt_eq ◌==◌ new.enqueued_by old.enqueued_by
                                && (new.max_attempts == old.max_attempts
                                    && new.created_at == old.created_at))))))))

unfoldable pub legal_transition : JobStatus → JobStatus → Bool
legal_transition queued queued = true
legal_transition queued running = true
legal_transition queued cancelled = true
legal_transition running running = true
legal_transition running succeeded = true
legal_transition running failed = true
legal_transition running queued = true
legal_transition _ _ = false

-- What a renewal must leave alone.
unfoldable pub only_lease : JobRecord → JobRecord → Bool
only_lease old new =
    opt_eq str_eq new.locked_by old.locked_by
    && (opt_eq ◌==◌ new.locked_at old.locked_at
        && (opt_eq ◌==◌ new.started_at old.started_at
            && (new.available_at == old.available_at
                && (int_eq new.priority old.priority
                    && (opt_eq ◌==◌ new.finished_at old.finished_at
                        && (opt_eq str_eq new.last_error_code old.last_error_code
                            && (opt_eq str_eq new.last_error old.last_error
                                && opt_eq fields_eq new.result old.result)))))))

-- `holder`: NULL where the row has no holder and a token was declared, and then `NOT holder` is not
-- taken.
unfoldable pub holder_of : Settings → JobRecord → Option Bool
holder_of settings old = elim settings.lease_token [
  | none ↦ some false
  | some token ↦ elim old.locked_by [
    | none ↦ none
    | some holder ↦ some (codes_eq token (lease_token old.attempts holder))
  ]
]

-- `NOT holder`, as a condition.
abbrev pub is_false : Option Bool → Bool
is_false (some false) = true
is_false (some true) = false
is_false none = false

abbrev refuse_if : Bool → Refusal → Result (Unit {0})
refuse_if test refusal = guard (not test) (database refusal)

unfoldable pub guard_claim : JobRecord → JobRecord → Result (Unit {0})
guard_claim old new =
    if status_eq new.status running
    then (do
      refuse_if (not (new.attempts == old.attempts + 1)) claim_one_attempt
      refuse_if (sql_le new.lease_expires_at new.locked_at) lease_ends_after_start)
    else refuse_if (not (new.attempts == old.attempts)) only_claim_counts

unfoldable pub guard_renewal : Instant → JobRecord → JobRecord → Result (Unit {0})
guard_renewal instant old new = do
  refuse_if (not (only_lease old new)) only_lease_changes
  refuse_if (sql_le old.lease_expires_at (some instant.guard_clock)) expired_not_renewed
  refuse_if (sql_lt new.lease_expires_at old.lease_expires_at) never_shortened
  refuse_if
      (sql_lt (some (greatest old.lease_expires_at (instant.guard_clock + one_day)))
        new.lease_expires_at)
      one_day_at_most

unfoldable pub guard_recovery : Settings → JobRecord → JobRecord → Result (Unit {0})
guard_recovery settings old new = do
  refuse_if (not (is_some settings.recovery_at) || sql_le settings.recovery_at old.lease_expires_at)
      only_holder_finishes
  refuse_if
      (status_eq new.status succeeded
        || not (opt_eq str_eq new.last_error_code (some "lease_expired")))
      recovered_never_completed

-- A write to a row that is running, renewal and end of the attempt alike.
unfoldable pub guard_running : Instant → Settings → JobRecord → JobRecord → Result (Unit {0})
guard_running instant settings old new = do
  refuse_if (not (new.attempts == old.attempts)) only_claim_counts
  if status_eq new.status running
      then (do
        refuse_if (is_false (holder_of settings old)) only_holder_renews
        guard_renewal instant old new)
      else if is_false (holder_of settings old)
      then guard_recovery settings old new
      else ok tt

-- The trigger before an UPDATE of one row.
unfoldable pub guard_transition : Instant → Settings → JobRecord → JobRecord → Result (Unit {0})
guard_transition instant settings old new = do
  refuse_if (not (same_identity old new)) identity_immutable
  refuse_if (is_terminal_status old.status) finished_immutable
  refuse_if (not (legal_transition old.status new.status)) illegal_transition
  refuse_if (ltb new.attempts old.attempts) attempts_decrease
  if status_eq old.status queued
      then guard_claim old new
      else guard_running instant settings old new

-- The trigger before an INSERT.
unfoldable pub guard_insert : JobRecord → Result (Unit {0})
guard_insert new =
    refuse_if (not (status_eq new.status queued) || (not (new.attempts == 0) || is_some new.result))
      born_queued

-- One row of an UPDATE: the trigger, its write of `updated_at`, then the constraints.
unfoldable pub write_row : Instant → Settings → JobRecord → JobRecord → Result JobRecord
write_row instant settings old new = do
  guard_transition instant settings old new
  let stamped : JobRecord = record new { updated_at = instant.guard_clock }
  guard (row_checks stamped) (database check_violation)
  ok stamped

-- UPDATE jobs SET … WHERE …: all rows of the table after it, and those that RETURNING gives.
unfoldable pub update_rows :
    Instant
    → Settings
    → (JobRecord → Bool)
    → (JobRecord → JobRecord)
    → List JobRecord
    → Result (List JobRecord × List JobRecord)
update_rows instant settings test set [] = ok ([], [])
update_rows instant settings test set (row ∷ rows) = do
  (rest, returned) ← update_rows instant settings test set rows
  if test row
      then (do new ← write_row instant settings row (set row); ok (new ∷ rest, new ∷ returned))
      else ok (row ∷ rest, returned)
