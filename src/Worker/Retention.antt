-- ===== src/Worker/Retention.antt =====
-- The retention policy of the purge (workers/retention.py).
use mervio.Jobs.Queue.{coalesce}
use mervio.Jobs.Record.{
  JobStatus, is_terminal_status, succeeded, failed, cancelled, queued, running,
}
use mervio.Error.{Result, ◌>>◌, ok, guard, value_error}
use mervio.Prelude.{
  ℕ, List, ◌∷◌, String, Bool, ◌≡◌, ◌-◌, Option, ◌*◌, true, str_eq, [], ◌||◌, none, some, ◌&&◌,
  if◌then◌else◌, leb, ◌≤◌, max, arith, refl,
}

-- `RetentionPolicy`; a duration that is no positive number of days is refused, 0 among them.
pub record RetentionPolicy : Type 0 where
  pub succeeded_jobs_days : ℕ
  pub failed_jobs_days : ℕ
  pub cancelled_jobs_days : ℕ
  pub audit_events_days : ℕ
  pub batch_limit : ℕ

abbrev pub audit_floor_days : ℕ
audit_floor_days = 30

abbrev pub default_policy : RetentionPolicy
default_policy = record {
  succeeded_jobs_days = 7;
  failed_jobs_days = 30;
  cancelled_jobs_days = 7;
  audit_events_days = 365;
  batch_limit = 1000;
}

-- `__post_init__`
unfoldable pub check_policy : RetentionPolicy → Result (Unit {0})
check_policy p = do
  guard (leb 1 p.succeeded_jobs_days) value_error
  guard (leb 1 p.failed_jobs_days) value_error
  guard (leb 1 p.cancelled_jobs_days) value_error
  guard (leb 1 p.audit_events_days) value_error
  guard (leb audit_floor_days p.audit_events_days) value_error
  guard
      (leb (max (max p.succeeded_jobs_days p.failed_jobs_days) p.cancelled_jobs_days)
        p.audit_events_days)
      value_error
  guard (leb 1 p.batch_limit && leb p.batch_limit 1000) value_error

-- A document of whole numbers, by key.
abbrev pub Document : Type 0
Document = List (String × ℕ)

unfoldable pub lookup : String → Document → Option ℕ
lookup key [] = none
lookup key ((k, v) ∷ rest) = if str_eq k key then some v else lookup key rest

abbrev pub is_known : String → Bool
is_known key =
    str_eq key "succeeded_jobs_days"
    || (str_eq key "failed_jobs_days"
        || (str_eq key "cancelled_jobs_days"
            || (str_eq key "audit_events_days" || str_eq key "batch_limit")))

unfoldable pub all_known : Document → Bool
all_known [] = true
all_known ((k, v) ∷ rest) = is_known k && all_known rest

-- `from_document`: a missing key takes its default, an unknown one is refused.
unfoldable pub from_document : Document → Result RetentionPolicy
from_document document = do
  guard (all_known document) value_error
  let policy : RetentionPolicy = record {
    succeeded_jobs_days = coalesce (lookup "succeeded_jobs_days" document) 7;
    failed_jobs_days = coalesce (lookup "failed_jobs_days" document) 30;
    cancelled_jobs_days = coalesce (lookup "cancelled_jobs_days" document) 7;
    audit_events_days = coalesce (lookup "audit_events_days" document) 365;
    batch_limit = coalesce (lookup "batch_limit" document) 1000;
  }
  check_policy policy
  ok policy

-- `to_document`
unfoldable pub to_document : RetentionPolicy → Document
to_document p =
    ("succeeded_jobs_days", p.succeeded_jobs_days)
    ∷ ("failed_jobs_days", p.failed_jobs_days)
    ∷ ("cancelled_jobs_days", p.cancelled_jobs_days)
    ∷ ("audit_events_days", p.audit_events_days)
    ∷ ("batch_limit", p.batch_limit)
    ∷ []

-- timedelta(days=…), in microseconds
abbrev pub days : ℕ → ℕ
days n = n * 86400000000

-- `job_cutoffs`: for each of the three ends of a job, the instant before which it may go.
unfoldable pub job_cutoff : RetentionPolicy → ℕ → JobStatus → Option ℕ
job_cutoff p now succeeded = some (now - days p.succeeded_jobs_days)
job_cutoff p now failed = some (now - days p.failed_jobs_days)
job_cutoff p now cancelled = some (now - days p.cancelled_jobs_days)
job_cutoff p now _ = none

-- `audit_cutoff`
unfoldable pub audit_cutoff : RetentionPolicy → ℕ → ℕ
audit_cutoff p now = now - days p.audit_events_days

-- A policy that was accepted, written as a document and read back, is the same policy.
pub from_document-to_document :
    (p : RetentionPolicy) → check_policy p ≡ ok tt → from_document (to_document p) ≡ ok p
unfolding from_document to_document lookup all_known
from_document-to_document p h = rw h refl

-- Under an accepted policy every finished status has a cutoff, and the audit trail is kept at least as
-- long, and at least 30 days: its cutoff is not after the job's, nor after 30 days before now.
pub audit_outlives_jobs :
    (p : RetentionPolicy) (now : ℕ) (status : JobStatus)
    → check_policy p ≡ ok tt
    → is_terminal_status status ≡ true
    → (cutoff : ℕ) × (job_cutoff p now status ≡ some cutoff)
      × (audit_cutoff p now ≤ cutoff)
      × (audit_cutoff p now ≤ now - days 30)
unfolding check_policy job_cutoff audit_cutoff
audit_outlives_jobs p now succeeded h t =
    (now - days p.succeeded_jobs_days, refl, ground arith, ground arith)
audit_outlives_jobs p now failed h t =
    (now - days p.failed_jobs_days, refl, ground arith, ground arith)
audit_outlives_jobs p now cancelled h t =
    (now - days p.cancelled_jobs_days, refl, ground arith, ground arith)
audit_outlives_jobs p now queued h t = absurd (cc t)
audit_outlives_jobs p now running h t = absurd (cc t)
