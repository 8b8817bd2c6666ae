-- ===== src/Connections.antt =====
-- The connections of a store (persistence/stores.py): their creation, their lookup and their revocation.
-- Identifiers are well formed, and instants are whole microseconds.
pub mod Revoking
mod Tests
use mervio.Json.Dump.{str_len}
use mervio.Jobs.Schedule.{check_limit}
use mervio.Members.{CreationHook}
use mervio.Tenancy.{read, manage_connections}
use mervio.Error.{Result, ◌>>◌, ◌>>=◌, err, not_found, ok, guard, database, check_violation}
use mervio.Prelude.{
  Bool, ℕ, List, ◌&&◌, true, String, ◌==◌, ltb, false, Option, ◌||◌, ◌∷◌, [], none, some,
  if◌then◌else◌, take, sort_by, select, leb,
}
use mervio.Database.{Db, Session, organization_of, open_transaction, fetch_store}

pub data ConnectionStatus : Type 0 where
  active revoked_status : ConnectionStatus

abbrev pub is_active : ConnectionStatus → Bool
is_active active = true
is_active revoked_status = false

-- `Connection`
pub record Connection : Type 0 where
  pub id : ℕ
  pub organization_id : ℕ
  pub store_id : ℕ
  pub kind : String
  pub label : String
  pub status : ConnectionStatus
  pub created_at : ℕ
  pub revoked_at : Option ℕ

-- WHERE organization_id = %s AND store_id = %s AND id = %s
abbrev pub is_connection : Session → ℕ → ℕ → Connection → Bool
is_connection session store id c =
    c.organization_id == organization_of session && (c.store_id == store && c.id == id)

unfoldable pub find_connection : (Connection → Bool) → List Connection → Option Connection
find_connection test [] = none
find_connection test (c ∷ cs) = if test c then some c else find_connection test cs

-- `fetch_connection`
unfoldable pub fetch_connection : Session → ℕ → ℕ → List Connection → Result Connection
fetch_connection session store id connections =
    elim (find_connection (is_connection session store id) connections) [
      | none ↦ err (not_found "connection")
      | some c ↦ ok c
    ]

-- `get_connection`
unfoldable pub get_connection : Db → Session → ℕ → ℕ → List Connection → Result Connection
get_connection db session store id connections = do
  open_transaction db session read
  fetch_connection session store id connections

-- The row that `create_csv_connection` inserts.
abbrev pub new_connection : Session → ℕ → ℕ → ℕ → String → Connection
new_connection session id now store label = record {
  id = id;
  organization_id = organization_of session;
  store_id = store;
  kind = "csv_upload";
  label = label;
  status = active;
  created_at = now;
  revoked_at = none;
}

-- `create_csv_connection`, for a new identifier (no hook is one that writes nothing); the CHECK of the table bounds the label.
unfoldable pub create_csv_connection :
    Session
    → ℕ
    → ℕ
    → ℕ
    → String
    → CreationHook
    → List Connection
    → Db
    → Result (Connection × (List Connection × Db))
create_csv_connection session id now store label hook connections db = do
  open_transaction db session manage_connections
  fetch_store db session store
  guard (leb 1 (str_len label) && leb (str_len label) 200) (database check_violation)
  let created : Connection = new_connection session id now store label
  trail ← hook id db.audit
  ok (created, (created ∷ connections, record db { audit = trail }))

-- The UPDATE of `revoke_connection`: the rows after it, and those that it returns.
unfoldable pub revoke_active :
    Session → ℕ → ℕ → ℕ → List Connection → List Connection × List Connection
revoke_active session now store id [] = ([], [])
revoke_active session now store id (c ∷ cs) =
    let rest = revoke_active session now store id cs in
    let closed : Connection = record c { status = revoked_status; revoked_at = some now } in
    if is_connection session store id c && is_active c.status
    then (closed ∷ rest.0, closed ∷ rest.1)
    else (c ∷ rest.0, rest.1)

unfoldable pub revoke_returned :
    Session
    → ℕ
    → ℕ
    → List Connection
    → List Connection × List Connection
    → Result (Connection × List Connection)
revoke_returned session store id before (after, []) = do
  current ← fetch_connection session store id before
  err (not_found "active connection")
revoke_returned session store id before (after, c ∷ cs) = ok (c, after)

-- `revoke_connection`
unfoldable pub revoke_connection :
    Db → Session → ℕ → ℕ → ℕ → List Connection → Result (Connection × List Connection)
revoke_connection db session now store id connections = do
  open_transaction db session manage_connections
  revoke_returned session store id connections (revoke_active session now store id connections)

abbrev pub created_before : Connection → Connection → Bool
created_before a b =
    ltb a.created_at b.created_at || (a.created_at == b.created_at && ltb a.id b.id)

-- The WHERE of `list_connections`.
abbrev pub is_shown : Session → ℕ → Bool → Connection → Bool
is_shown session store include_revoked c =
    c.organization_id == organization_of session
    && (c.store_id == store && (include_revoked || is_active c.status))

-- `list_connections`
unfoldable pub list_connections :
    Db → Session → ℕ → Bool → ℕ → List Connection → Result (List Connection)
list_connections db session store include_revoked limit connections = do
  open_transaction db session read
  fetch_store db session store
  check_limit limit
  ok (
      take limit
        (sort_by created_before (select (is_shown session store include_revoked) connections)))
