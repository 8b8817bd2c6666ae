-- ===== src/Stores/Owned.antt =====
-- What an organization sees of its stores.
use mervio.Prelude.{
  ℕ, List, true, ◌∷◌, [], ◌≡◌, ◌≤◌, All, Within, All-take, All-select, All-sort_by, All-Within,
  length, length-take, select, sort_by, arith, Bool-cases, inl, inr,
}
use mervio.Error.{ok, >>=-eq-ok, ok-injective}
use mervio.Jobs.Schedule.{check_limit}
use mervio.Tenancy.{read}
use mervio.Database.{Session, Db, open_transaction, organization_of}
use mervio.Stores.{
  StoreRow, list_stores, store_before, is_own_store, get_store, fetch_row, is_store,
}

-- What `list_stores` returns is of the table and of the organization of the session, and at most as
-- many rows as the limit, which is at most a thousand.
pub list_stores-Own :
    (db : Db) (session : Session) (limit : ℕ) (stores : List StoreRow) {listed : List StoreRow}
    → list_stores db session limit stores ≡ ok listed
    → All (λ s. Within s stores × (is_own_store session s ≡ true)) listed
      × (length listed ≤ limit)
      × (limit ≤ 1000)
unfolding list_stores check_limit
list_stores-Own db session limit stores h =
    let (_, _, h1) = >>=-eq-ok (open_transaction db session read) _ h in
    let (_, bound, h2) = >>=-eq-ok (check_limit limit) _ h1 in
    let kept = select (is_own_store session) stores in
    let Own : StoreRow → Type 0 = λ s. Within s stores × (is_own_store session s ≡ true) in
    rw (← ok-injective h2) (
      All-take Own limit (sort_by store_before kept) (
          All-sort_by Own store_before kept (
            All-select (λ s. Within s stores) (is_own_store session) stores
              (All-Within (λ s. Within s stores) stores (λ s w. w)))),
      length-take limit (sort_by store_before kept),
      ground (arith, bound),
    )

fetch_row-own :
    (session : Session) (id : ℕ) (stores : List StoreRow) {s : StoreRow}
    → fetch_row session id stores ≡ ok s
    → (s.organization_id ≡ organization_of session) × (s.id ≡ id)
unfolding fetch_row
fetch_row-own session id [] h = absurd (cc h)
fetch_row-own session id (t ∷ ts) {s} h = elim (Bool-cases (is_store session id t)) [
  | inl own ↦ rw (← ok-injective (rw own at h)) (ground (arith, own))
  | inr foreign ↦ fetch_row-own session id ts (rw foreign at h)
]

-- `get_store` returns the store of the organization of the session with the identifier.
pub get_store-own :
    (db : Db) (session : Session) (id : ℕ) (stores : List StoreRow) {s : StoreRow}
    → get_store db session id stores ≡ ok s
    → (s.organization_id ≡ organization_of session) × (s.id ≡ id)
unfolding get_store
get_store-own db session id stores h =
    let (_, _, h1) = >>=-eq-ok (open_transaction db session read) _ h in
    fetch_row-own session id stores h1
