-- ===== src/Connections/Tests.antt =====
-- The connections of one store.
use mervio.Prelude.{◌∷◌, [], some, false, ◌≡◌, ◌≢◌, All, refl}
use mervio.Error.{ok, err, not_found}
use mervio.Jobs.Sample.{owner_session, sample_db}
use mervio.Jobs.Schedule.{check_limit}
use mervio.Tenancy.{authorise, rank, minimum_role, role_allows, membership_role}
use mervio.Database.{open_transaction, fetch_store, has_store, Db}
use mervio.Connections.{
  Connection, new_connection, create_csv_connection, revoke_connection, revoke_active,
  revoke_returned, list_connections, revoked_status, get_connection, fetch_connection,
  find_connection,
}
use mervio.Connections.Revoking.{revoke_connection-once}

-- The tables with one store.
abbrev store_db : Db
store_db = record sample_db { stores = record { organization_id = 7; id = 3 } ∷ [] }

abbrev first : Connection
first = new_connection owner_session 1 10 3 "orders"

abbrev second : Connection
second = new_connection owner_session 2 20 3 "refunds"

abbrev first_revoked : Connection
first_revoked = record first { status = revoked_status; revoked_at = some 30 }

small_create :
    create_csv_connection owner_session 2 20 3 "refunds"
      (λ id trail. ok trail)
      (first ∷ [])
      store_db
    ≡ ok (second, (second ∷ first ∷ [], store_db))
unfolding create_csv_connection open_transaction authorise rank minimum_role role_allows
    membership_role fetch_store has_store
small_create = refl

small_get : get_connection store_db owner_session 3 1 (second ∷ first ∷ []) ≡ ok first
unfolding get_connection fetch_connection find_connection open_transaction authorise rank
    minimum_role role_allows membership_role
small_get = refl

small_revoke :
    revoke_connection store_db owner_session 30 3 1 (second ∷ first ∷ [])
    ≡ ok (first_revoked, second ∷ first_revoked ∷ [])
unfolding revoke_connection revoke_active revoke_returned open_transaction authorise rank
    minimum_role role_allows membership_role
small_revoke = refl

small_list :
    list_connections store_db owner_session 3 false 50 (second ∷ first_revoked ∷ [])
    ≡ ok (second ∷ [])
unfolding list_connections open_transaction authorise rank minimum_role role_allows membership_role
    fetch_store check_limit has_store
small_list = refl

revoke_connection-once_example :
    (revoke_connection store_db owner_session 40 3 1 (second ∷ first_revoked ∷ [])
      ≡ err (not_found "active connection"))
    × All (λ (x : Connection). x.id ≢ 1) (second ∷ [])
revoke_connection-once_example =
    revoke_connection-once owner_session 30 40 3 1 50 store_db (second ∷ first ∷ []) small_revoke
      small_list
