-- ===== src/Stores.antt =====
-- The stores of an organization (persistence/stores.py): their creation and their lookup. Identifiers are
-- well formed, and instants are whole microseconds.
pub mod Owned
mod Tests
use mervio.Members.{CreationHook}
use mervio.Prelude.{
  List, Option, Bool, ℕ, ◌∷◌, ltb, leb, String, ◌==◌, take, ◌||◌, ◌&&◌, true, sort_by,
  if◌then◌else◌, [], select, false, some, str_eq, none,
}
use mervio.Database.{Session, Db, open_transaction, organization_of}
use mervio.Json.Dump.{str_len, codes}
use mervio.Jobs.Schedule.{check_limit}
use mervio.Members.{CreationHook}
use mervio.Tenancy.{read, manage_stores}
use mervio.Error.{
  Result, ◌>>◌, ◌>>=◌, err, ok, guard, database, check_violation, not_found, value_error,
}

-- `Store`
pub record StoreRow : Type 0 where
  pub id : ℕ
  pub organization_id : ℕ
  pub name : String
  pub currency : Option String
  pub created_at : ℕ

-- [A-Z]
abbrev pub is_capital : ℕ → Bool
is_capital c = leb 65 c && leb c 90

-- The CHECK of the table, whose $ matches at the end of the text only.
unfoldable pub three_capitals : List ℕ → Bool
three_capitals (a ∷ b ∷ c ∷ []) = is_capital a && (is_capital b && is_capital c)
three_capitals _ = false

-- `_CURRENCY_RE`, whose $ matches before a last line feed as well.
unfoldable pub currency_re : List ℕ → Bool
currency_re (a ∷ b ∷ c ∷ []) = is_capital a && (is_capital b && is_capital c)
currency_re (a ∷ b ∷ c ∷ d ∷ []) = is_capital a && (is_capital b && (is_capital c && d == 10))
currency_re _ = false

abbrev pub check_currency : Option String → (List ℕ → Bool) → Bool
check_currency none accepts = true
check_currency (some currency) accepts = accepts (codes currency)

-- `create_store`, for a new identifier (no hook is one that writes nothing); the CHECKs of the table bound the name and the currency.
unfoldable pub create_store :
    Session
    → ℕ
    → ℕ
    → String
    → Option String
    → CreationHook
    → List StoreRow
    → Db
    → Result (StoreRow × (List StoreRow × Db))
create_store session id now name currency hook stores db = do
  guard (check_currency currency currency_re) value_error
  open_transaction db session manage_stores
  guard (leb 1 (str_len name) && (leb (str_len name) 200 && check_currency currency three_capitals))
      (database check_violation)
  let created : StoreRow = record {
    id = id;
    organization_id = organization_of session;
    name = name;
    currency = currency;
    created_at = now;
  }
  trail ← hook id db.audit
  ok (created, (created ∷ stores, record db { audit = trail }))

abbrev pub store_before : StoreRow → StoreRow → Bool
store_before a b = ltb a.created_at b.created_at || (a.created_at == b.created_at && ltb a.id b.id)

abbrev pub is_named : Session → String → StoreRow → Bool
is_named session name s = s.organization_id == organization_of session && str_eq s.name name

-- `find_stores_by_name`
unfoldable pub find_stores_by_name : Db → Session → String → List StoreRow → Result (List StoreRow)
find_stores_by_name db session name stores = do
  open_transaction db session read
  ok (sort_by store_before (select (is_named session name) stores))

abbrev pub is_store : Session → ℕ → StoreRow → Bool
is_store session id s = s.organization_id == organization_of session && s.id == id

unfoldable pub fetch_row : Session → ℕ → List StoreRow → Result StoreRow
fetch_row session id [] = err (not_found "store")
fetch_row session id (s ∷ ss) =
    let rest = fetch_row session id ss in if is_store session id s then ok s else rest

-- `get_store`
unfoldable pub get_store : Db → Session → ℕ → List StoreRow → Result StoreRow
get_store db session id stores = do open_transaction db session read; fetch_row session id stores

abbrev pub is_own_store : Session → StoreRow → Bool
is_own_store session s = s.organization_id == organization_of session

-- `list_stores`
unfoldable pub list_stores : Db → Session → ℕ → List StoreRow → Result (List StoreRow)
list_stores db session limit stores = do
  open_transaction db session read
  check_limit limit
  ok (take limit (sort_by store_before (select (is_own_store session) stores)))
