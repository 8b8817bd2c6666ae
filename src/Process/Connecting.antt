-- ===== src/Process/Connecting.antt =====
-- `_connect` of workers/runtime.py.
use mervio.Jobs.Guard.{seconds}
use mervio.Prelude.{Bool, ℕ, String, List, min, ◌*◌, ◌+◌, ◌∷◌, if◌then◌else◌, true, ltb, [], false}
use mervio.Process.{
  WorkerSettings, WorkerRuntime, Signal, deliver, exit_ok, exit_schema, exit_config, exit_database,
}

-- What opening both connections and reading the identity comes to; `failing` tells whether
-- `retryable_database_error` holds of the error.
pub data Opening : Type 0 where
  opened schema_not_ready unsafe_configuration : Opening
  failing : Bool → Opening

-- One turn of the loop: the signals before its test and while it opens, the clock after a failure, and
-- the signals while it waits.
pub record Attempt : Type 0 where
  pub before : List Signal
  pub opening : Opening
  pub meanwhile : List Signal
  pub clock : ℕ
  pub waiting : List Signal

-- Why the process ends: the codes of `RunResult.reason`.
pub data Reason : Type 0 where
  on_request by_force bad_config no_database bad_schema crashed : Reason

abbrev pub reason_code : Reason → String
reason_code on_request = "stopped"
reason_code by_force = "forced"
reason_code bad_config = "config"
reason_code no_database = "database"
reason_code bad_schema = "schema"
reason_code crashed = "internal"

-- `_Abort` is raised, the worker is made, or the loop is still at its attempts.
pub data Connection : Type 0 where
  made pending : Connection
  aborted : ℕ → Reason → Connection

abbrev pub first_delay : ℕ
first_delay = 500000

abbrev pub next_delay : ℕ → ℕ
next_delay delay = min (delay * 2) (seconds 5)

-- The branches of one turn: the process after the opening and after the wait, and the turns that follow.
unfoldable pub on_opening :
    Opening
    → Bool
    → WorkerRuntime
    → WorkerRuntime
    → Connection × WorkerRuntime
    → Connection × WorkerRuntime
on_opening opened late tried waited later = (made, record tried { has_worker = true })
on_opening schema_not_ready late tried waited later = (aborted exit_schema bad_schema, tried)
on_opening unsafe_configuration late tried waited later = (aborted exit_config bad_config, tried)
on_opening (failing false) late tried waited later = (aborted exit_database no_database, tried)
on_opening (failing true) late tried waited later =
    if late
    then (aborted exit_database no_database, tried)
    else if waited.stop_set
    then (aborted exit_ok on_request, waited)
    else later

unfoldable pub connect_from :
    WorkerSettings → ℕ → ℕ → List Attempt → WorkerRuntime → Connection × WorkerRuntime
connect_from settings deadline delay [] rt = (pending, rt)
connect_from settings deadline delay (a ∷ rest) rt =
    let tested : WorkerRuntime = deliver settings a.before rt in
    let tried : WorkerRuntime = deliver settings a.meanwhile tested in
    let waited : WorkerRuntime = deliver settings a.waiting tried in
    let later = connect_from settings deadline (next_delay delay) rest waited in
    if tested.stop_set
    then (aborted exit_ok on_request, tested)
    else on_opening a.opening (ltb deadline (a.clock + delay)) tried waited later

-- `_connect`, from a reading of the clock.
unfoldable pub connect :
    WorkerSettings → ℕ → List Attempt → WorkerRuntime → Connection × WorkerRuntime
connect settings started = connect_from settings (started + settings.startup_timeout) first_delay
