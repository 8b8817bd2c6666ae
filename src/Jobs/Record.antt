-- ===== src/Jobs/Record.antt =====
-- The rows of the `jobs` table: `JobRecord` and its enumerations in persistence/jobs.py.
use Prim.Native.Nat.{ℕ}
use mervio.Prelude.{String, Bool, true, false, Option, ◌-◌, ◌==◌, leb, ltb, ◌+◌}
use mervio.Json.{Fields}

pub data JobType : Type 0 where
  import_ analysis purge : JobType

pub data JobStatus : Type 0 where
  queued running succeeded failed cancelled : JobStatus

abbrev pub type_eq : JobType → JobType → Bool
type_eq import_ import_ = true
type_eq analysis analysis = true
type_eq purge purge = true
type_eq _ _ = false

abbrev pub status_eq : JobStatus → JobStatus → Bool
status_eq queued queued = true
status_eq running running = true
status_eq succeeded succeeded = true
status_eq failed failed = true
status_eq cancelled cancelled = true
status_eq _ _ = false

-- TERMINAL_STATUSES
abbrev pub is_terminal_status : JobStatus → Bool
is_terminal_status succeeded = true
is_terminal_status failed = true
is_terminal_status cancelled = true
is_terminal_status _ = false

-- ALLOWED_TRANSITIONS
unfoldable pub allowed_transition : JobStatus → JobStatus → Bool
allowed_transition queued running = true
allowed_transition queued cancelled = true
allowed_transition queued queued = true
allowed_transition running succeeded = true
allowed_transition running failed = true
allowed_transition running queued = true
allowed_transition _ _ = false

-- `priority` is a smallint from -100 to 100.
pub data ℤ : Type 0 where
  pos : ℕ → ℤ
  negsuc : ℕ → ℤ

-- The number shifted by 100, exact from -100 on.
abbrev pub shifted : ℤ → ℕ
shifted (pos n) = n + 100
shifted (negsuc n) = 99 - n

abbrev pub priority_in_range : ℤ → Bool
priority_in_range (pos n) = leb n 100
priority_in_range (negsuc n) = leb n 99

abbrev pub int_eq : ℤ → ℤ → Bool
int_eq (pos a) (pos b) = a == b
int_eq (negsuc a) (negsuc b) = a == b
int_eq _ _ = false

-- a < b
abbrev pub int_ltb : ℤ → ℤ → Bool
int_ltb (pos a) (pos b) = ltb a b
int_ltb (pos a) (negsuc b) = false
int_ltb (negsuc a) (pos b) = true
int_ltb (negsuc a) (negsuc b) = ltb b a

-- Instants are microseconds, the resolution of `timestamptz`; identifiers are UUIDs as numbers.
pub record JobRecord : Type 0 where
  pub id : ℕ
  pub organization_id : ℕ
  pub store_id : Option ℕ
  pub job_type : JobType
  pub status : JobStatus
  pub priority : ℤ
  pub attempts : ℕ
  pub max_attempts : ℕ
  pub idempotency_key : Option String
  pub correlation_id : ℕ
  pub enqueued_by : Option ℕ
  pub available_at : ℕ
  pub locked_at : Option ℕ
  pub locked_by : Option String
  pub lease_expires_at : Option ℕ
  pub started_at : Option ℕ
  pub finished_at : Option ℕ
  pub last_error_code : Option String
  pub last_error : Option String
  pub payload : Fields
  pub result : Option Fields
  pub created_at : ℕ
  pub updated_at : ℕ

unfoldable pub is_terminal : JobRecord → Bool
is_terminal job = is_terminal_status job.status

-- `max(0, self.max_attempts - self.attempts)`: subtraction on ℕ stops at 0.
unfoldable pub attempts_left : JobRecord → ℕ
attempts_left job = job.max_attempts - job.attempts
