-- ===== src/Worker/Failures.antt =====
-- Which failures may be tried again: persistence/retry.py and workers/errors.py.
use mervio.Jobs.Guard.{is_some}
use mervio.Json.Dump.{codes}
use mervio.Prelude.{
  String, Option, List, Bool, ◌∷◌, true, if◌then◌else◌, ℕ, false, str_eq, ◌++◌, [], none, take,
  some, ◌&&◌, leb, ◌+◌, not, ◌||◌,
}

-- The classes of exceptions that the code tells apart; the rest of them by name.
pub data Kind : Type 0 where
  persistence_error not_found_error tenant_access_denied_error permission_denied_error : Kind
  unsafe_database_configuration service_identity schema_not_ready money_precision_error : Kind
  snapshot_integrity_error import_rejected job_state job_lease_lost_error payload : Kind
  mervio_error configuration_error ingestion_error missing_columns_error : Kind
  invalid_data_error insufficient_data_error : Kind
  file_not_found_error is_a_directory_error not_a_directory_error : Kind
  operational_error psycopg_error : Kind
  job_execution_error : String → Bool → Kind
  other : String → Kind

-- An exception: its class, and what a driver error carries.
pub record Raised : Type 0 where
  pub kind : Kind
  pub sqlstate : Option String
  pub constraint_name : Option String

-- isinstance(exc, PersistenceError)
unfoldable pub is_persistence : Kind → Bool
is_persistence persistence_error = true
is_persistence not_found_error = true
is_persistence tenant_access_denied_error = true
is_persistence permission_denied_error = true
is_persistence unsafe_database_configuration = true
is_persistence service_identity = true
is_persistence schema_not_ready = true
is_persistence money_precision_error = true
is_persistence snapshot_integrity_error = true
is_persistence import_rejected = true
is_persistence job_state = true
is_persistence job_lease_lost_error = true
is_persistence payload = true
is_persistence _ = false

-- isinstance(exc, MervioError)
unfoldable pub is_mervio : Kind → Bool
is_mervio mervio_error = true
is_mervio configuration_error = true
is_mervio ingestion_error = true
is_mervio missing_columns_error = true
is_mervio invalid_data_error = true
is_mervio insufficient_data_error = true
is_mervio (job_execution_error code retryable) = true
is_mervio k = is_persistence k

-- isinstance(exc, _PERMANENT)
unfoldable pub is_permanent : Kind → Bool
is_permanent ingestion_error = true
is_permanent missing_columns_error = true
is_permanent invalid_data_error = true
is_permanent insufficient_data_error = true
is_permanent configuration_error = true
is_permanent not_found_error = true
is_permanent tenant_access_denied_error = true
is_permanent permission_denied_error = true
is_permanent payload = true
is_permanent import_rejected = true
is_permanent snapshot_integrity_error = true
is_permanent unsafe_database_configuration = true
is_permanent service_identity = true
is_permanent schema_not_ready = true
is_permanent file_not_found_error = true
is_permanent is_a_directory_error = true
is_permanent not_a_directory_error = true
is_permanent _ = false

abbrev pub one_of : String → List String → Bool
one_of s [] = false
one_of s (t ∷ ts) = str_eq s t || one_of s ts

-- RETRYABLE_SQLSTATES
unfoldable pub retryable_sqlstates : List String
retryable_sqlstates =
    "40001" ∷ "40P01" ∷ "55P03" ∷ "55006" ∷ "53000" ∷ "53100" ∷ "53200" ∷ "53300" ∷ "57P01"
    ∷ "57P02" ∷ "57P03" ∷ "08000" ∷ "08003" ∷ "08006" ∷ "08001" ∷ "08004" ∷ []

-- The first two tests of `retryable_database_error`.
abbrev pub never_retried : Kind → Bool
never_retried payload = true
never_retried permission_denied_error = true
never_retried tenant_access_denied_error = true
never_retried job_lease_lost_error = true
never_retried _ = false

abbrev pub is_operational : Kind → Bool
is_operational operational_error = true
is_operational _ = false

-- `retryable_database_error`
unfoldable pub retryable_database_error : Raised → Bool
retryable_database_error e =
    if never_retried e.kind
    then false
    else if is_operational e.kind && not (is_some e.sqlstate)
    then true
    else elim e.sqlstate [ some state ↦ one_of state retryable_sqlstates | none ↦ false ]

-- type(exc).__name__
unfoldable pub class_name : Kind → String
class_name persistence_error = "PersistenceError"
class_name not_found_error = "NotFound"
class_name tenant_access_denied_error = "TenantAccessDenied"
class_name permission_denied_error = "PermissionDenied"
class_name unsafe_database_configuration = "UnsafeDatabaseConfiguration"
class_name service_identity = "ServiceIdentityError"
class_name schema_not_ready = "SchemaNotReady"
class_name money_precision_error = "MoneyPrecisionError"
class_name snapshot_integrity_error = "SnapshotIntegrityError"
class_name import_rejected = "ImportRejected"
class_name job_state = "JobStateError"
class_name job_lease_lost_error = "JobLeaseLost"
class_name payload = "PayloadRejected"
class_name mervio_error = "MervioError"
class_name configuration_error = "ConfigurationError"
class_name ingestion_error = "IngestionError"
class_name missing_columns_error = "MissingColumnsError"
class_name invalid_data_error = "InvalidDataError"
class_name insufficient_data_error = "InsufficientDataError"
class_name file_not_found_error = "FileNotFoundError"
class_name is_a_directory_error = "IsADirectoryError"
class_name not_a_directory_error = "NotADirectoryError"
class_name operational_error = "OperationalError"
class_name psycopg_error = "Error"
class_name (job_execution_error code retryable) = "JobExecutionError"
class_name (other name) = name

abbrev pub sqlstate_prefix : List ℕ
sqlstate_prefix = codes "sqlstate_"

-- `if sqlstate:` also leaves out the empty text.
unfoldable pub database_error_code : Raised → List ℕ
database_error_code e = elim e.sqlstate [
  | none ↦ codes (class_name e.kind)
  | some state ↦
      if str_eq state "" then codes (class_name e.kind) else sqlstate_prefix ++ codes state
]

-- One character of `_code`, on an ASCII name.
abbrev pub snake_char : Bool → ℕ → List ℕ
snake_char first c =
    if leb 65 c && leb c 90 then (if first then (c + 32) ∷ [] else 95 ∷ (c + 32) ∷ []) else c ∷ []

unfoldable pub snake_rest : List ℕ → List ℕ
snake_rest [] = []
snake_rest (c ∷ cs) = snake_char false c ++ snake_rest cs

unfoldable pub snake : List ℕ → List ℕ
snake [] = []
snake (c ∷ cs) = snake_char true c ++ snake_rest cs

-- `_code`
unfoldable pub code_of : Raised → List ℕ
code_of e = take 100 (snake (codes (class_name e.kind)))

-- `Failure`, without its message.
pub record Verdict : Type 0 where
  pub code : List ℕ
  pub retryable : Bool

-- `classify`
unfoldable pub classify_other : Raised → Verdict
classify_other e =
    if is_permanent e.kind
    then record { code = code_of e; retryable = false }
    else if retryable_database_error e
    then record { code = database_error_code e; retryable = true }
    else if is_some e.sqlstate
    then record { code = database_error_code e; retryable = false }
    else if is_mervio e.kind
    then record { code = code_of e; retryable = false }
    else record { code = code_of e; retryable = true }

unfoldable pub classify_kind : Kind → Raised → Verdict
classify_kind job_lease_lost_error e = record { code = codes "lease_lost"; retryable = false }
classify_kind (job_execution_error code retryable) e = record {
  code = codes code;
  retryable = retryable;
}
classify_kind k e = classify_other e

unfoldable pub classify : Raised → Verdict
classify e = classify_kind e.kind e
