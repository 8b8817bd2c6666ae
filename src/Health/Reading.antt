-- ===== src/Health/Reading.antt =====
-- The document of the health file: `to_document`, `read_health` and `check_health` of
-- observability/health.py.
use mervio.Jobs.Guard.{seconds}
use mervio.Health.{
  HealthSnapshot, WorkerState, state_value, HealthVerdict, health_schema_version, starting,
  evaluate, ready, busy, draining, degraded, stopped, forced,
}
use mervio.Prelude.{
  String, ◌⊎◌, Bool, List, Option, ℕ, some, ◌==◌, false, ◌∷◌, ◌≡◌, inl, none, inr, true, [], ◌&&◌,
  str_eq, refl, leb, ◌||◌, if◌then◌else◌,
}

-- A decoded JSON value, as far as `isinstance` tells one from another; an instant is a number of
-- microseconds, and numbers are not negative.
pub data Datum : Type 0 where
  integer : ℕ → Datum
  floating : ℕ → Datum
  text : String → Datum
  truth : Bool → Datum
  nothing : Datum
  other : Datum

-- A dictionary.
abbrev pub Document : Type 0
Document = List (String × Datum)

-- `HealthFileError`, by its code.
pub data HealthFileError : Type 0 where
  missing unreadable invalid unsupported_version : HealthFileError

abbrev pub error_code : HealthFileError → String
error_code missing = "missing"
error_code unreadable = "unreadable"
error_code invalid = "invalid"
error_code unsupported_version = "unsupported_version"

abbrev optional : Option ℕ → Datum
optional none = nothing
optional (some t) = floating t

-- `to_document`
unfoldable pub to_document : HealthSnapshot → Document
to_document s =
    ("version", integer s.version)
    ∷ ("state", text (state_value s.state))
    ∷ ("updated_at", floating s.updated_at)
    ∷ ("started_at", floating s.started_at)
    ∷ ("pid", integer s.pid)
    ∷ ("worker_id", text s.worker_id)
    ∷ ("jobs_processed", integer s.jobs_processed)
    ∷ ("last_database_ok_at", optional s.last_database_ok_at)
    ∷ ("degraded_since", optional s.degraded_since)
    ∷ []

unfoldable pub field_of : String → Document → Option Datum
field_of key [] = none
field_of key ((k, v) ∷ rest) = if str_eq k key then some v else field_of key rest

-- The names of `_FIELDS`.
abbrev pub field_names : List String
field_names =
    "version" ∷ "state" ∷ "updated_at" ∷ "started_at" ∷ "pid" ∷ "worker_id" ∷ "jobs_processed"
    ∷ "last_database_ok_at" ∷ "degraded_since" ∷ []

abbrev pub among : String → List String → Bool
among key [] = false
among key (k ∷ ks) = str_eq k key || among key ks

-- No key of the document is outside `_FIELDS`; each of them is looked up below.
unfoldable pub only_fields : Document → Bool
only_fields [] = true
only_fields ((k, v) ∷ rest) = among k field_names && only_fields rest

-- `_FIELDS[name]` for the kinds of value it names.
abbrev pub as_int : Datum → HealthFileError ⊎ ℕ
as_int (integer n) = inr n
as_int _ = inl invalid

-- `(int, float)`: an int counts seconds.
abbrev pub as_number : Datum → HealthFileError ⊎ ℕ
as_number (integer n) = inr (seconds n)
as_number (floating t) = inr t
as_number _ = inl invalid

abbrev pub as_optional : Datum → HealthFileError ⊎ Option ℕ
as_optional nothing = inr none
as_optional (integer n) = inr (some (seconds n))
as_optional (floating t) = inr (some t)
as_optional _ = inl invalid

abbrev pub as_text : Datum → HealthFileError ⊎ String
as_text (text s) = inr s
as_text _ = inl invalid

infixl 5 ◌then◌
abbrev pub ◌then◌ {ℓ κ} :
    {A : Type ℓ} {B : Type κ}
    → HealthFileError ⊎ A
    → (A → HealthFileError ⊎ B)
    → HealthFileError ⊎ B
inl e then next = inl e
inr a then next = next a

abbrev pub require : Bool → HealthFileError → HealthFileError ⊎ (Unit {0})
require false e = inl e
require true e = inr tt

abbrev pub typed {ℓ} :
    {A : Type ℓ} → (Datum → HealthFileError ⊎ A) → String → Document → HealthFileError ⊎ A
typed kind name document = elim (field_of name document) [ none ↦ inl invalid | some v ↦ kind v ]

-- `WorkerState(value)`
unfoldable pub state_of : String → HealthFileError ⊎ WorkerState
state_of s =
    if str_eq s "starting"
    then inr starting
    else if str_eq s "ready"
    then inr ready
    else if str_eq s "busy"
    then inr busy
    else if str_eq s "draining"
    then inr draining
    else if str_eq s "degraded"
    then inr degraded
    else if str_eq s "stopped"
    then inr stopped
    else if str_eq s "forced"
    then inr forced
    else inl invalid

-- The checks of `read_health` on a decoded dictionary.
unfoldable pub check_document : Document → HealthFileError ⊎ HealthSnapshot
check_document document = require (only_fields document) invalid then λ _.
    typed as_int "version" document then λ version. typed as_text "state" document then λ state.
    typed as_number "updated_at" document then λ updated_at.
    typed as_number "started_at" document then λ started_at. typed as_int "pid" document then λ pid.
    typed as_text "worker_id" document then λ worker_id.
    typed as_int "jobs_processed" document then λ jobs_processed.
    typed as_optional "last_database_ok_at" document then λ last_database_ok_at.
    typed as_optional "degraded_since" document then λ degraded_since.
    require (version == health_schema_version) unsupported_version then λ _.
    state_of state then λ w. inr (record {
      version = version;
      state = w;
      updated_at = updated_at;
      started_at = started_at;
      pid = pid;
      worker_id = worker_id;
      jobs_processed = jobs_processed;
      last_database_ok_at = last_database_ok_at;
      degraded_since = degraded_since;
    })

abbrev pub max_health_file_bytes : ℕ
max_health_file_bytes = 4096

-- What opening and reading the file gives: its bytes, by their count and by what `decode` and
-- `json.loads` make of them, a dictionary or not.
pub data Contents : Type 0 where
  not_there : Contents
  os_error : Contents
  bytes : ℕ → Option Document → Contents

-- `read_health`
unfoldable pub read_health : Contents → HealthFileError ⊎ HealthSnapshot
read_health not_there = inl missing
read_health os_error = inl unreadable
read_health (bytes size decoded) = require (leb size max_health_file_bytes) invalid then λ _.
    elim decoded [ none ↦ inl invalid | some document ↦ check_document document ]

-- `check_health`, where no path is `none`.
unfoldable pub check_health : Option Contents → ℕ → ℕ → ℕ → HealthVerdict
check_health none now max_age grace = record {
  live = false;
  is_ready = false;
  reason = "not_configured";
  state = none;
}
check_health (some contents) now max_age grace = elim (read_health contents) [
  | inl e ↦ record { live = false; is_ready = false; reason = error_code e; state = none }
  | inr s ↦ evaluate s now max_age grace
]

state_of-state_value : (w : WorkerState) → state_of (state_value w) ≡ inr w
unfolding state_of
state_of-state_value starting = refl
state_of-state_value ready = refl
state_of-state_value busy = refl
state_of-state_value draining = refl
state_of-state_value degraded = refl
state_of-state_value stopped = refl
state_of-state_value forced = refl

as_optional-optional : (o : Option ℕ) → as_optional (optional o) ≡ inr o
as_optional-optional none = refl
as_optional-optional (some t) = refl

pub check_document-to_document :
    (s : HealthSnapshot)
    → s.version ≡ health_schema_version
    → check_document (to_document s) ≡ inr s
unfolding check_document to_document only_fields field_of
check_document-to_document s v =
    rw
      (
        v,
        state_of-state_value s.state,
        as_optional-optional s.last_database_ok_at,
        as_optional-optional s.degraded_since,
      )
      refl
