-- ===== src/Stores/Tests.antt =====
-- The stores of two organizations.
use mervio.Prelude.{ℕ, List, ◌∷◌, [], none, some, ◌≡◌, refl, Option, String, ◌*◌}
use mervio.Error.{ok, err, value_error, database, check_violation}
use mervio.Jobs.Sample.{owner_session, sample_db}
use mervio.Jobs.Schedule.{check_limit}
use mervio.Tenancy.{authorise, rank, minimum_role, role_allows, membership_role}
use mervio.Database.{open_transaction}
use mervio.Stores.{
  StoreRow, create_store, list_stores, get_store, fetch_row, find_stores_by_name, currency_re,
  three_capitals,
}

abbrev shop : ℕ → ℕ → Option String → StoreRow
shop id organization currency = record {
  id = id;
  organization_id = organization;
  name = "shop";
  currency = currency;
  created_at = 10 * id;
}

abbrev small_stores : List StoreRow
small_stores = shop 3 7 (some "EUR") ∷ shop 2 8 none ∷ shop 1 7 none ∷ []

small_create :
    create_store owner_session 4 40 "shop"
      (some "CHF")
      (λ id trail. ok trail)
      small_stores
      sample_db
    ≡ ok (shop 4 7 (some "CHF"), (shop 4 7 (some "CHF") ∷ small_stores, sample_db))
unfolding create_store currency_re three_capitals open_transaction authorise rank minimum_role
    role_allows membership_role
small_create = refl

small_refusal :
    create_store owner_session 4 40 "shop"
      (some "eur")
      (λ id trail. ok trail)
      small_stores
      sample_db
    ≡ err value_error
unfolding create_store currency_re
small_refusal = refl

-- A currency that ends in a line feed passes the expression, and the table refuses it.
line_feed :
    create_store owner_session 4 40 "shop"
      (some "EUR\n")
      (λ id trail. ok trail)
      small_stores
      sample_db
    ≡ err (database check_violation)
unfolding create_store currency_re three_capitals open_transaction authorise rank minimum_role
    role_allows membership_role
line_feed = refl

small_list :
    list_stores sample_db owner_session 5 small_stores
    ≡ ok (shop 1 7 none ∷ shop 3 7 (some "EUR") ∷ [])
unfolding list_stores check_limit open_transaction authorise rank minimum_role role_allows
    membership_role
small_list = refl

small_names :
    find_stores_by_name sample_db owner_session "shop" small_stores
    ≡ ok (shop 1 7 none ∷ shop 3 7 (some "EUR") ∷ [])
unfolding find_stores_by_name open_transaction authorise rank minimum_role role_allows
    membership_role
small_names = refl

small_get : get_store sample_db owner_session 1 small_stores ≡ ok (shop 1 7 none)
unfolding get_store fetch_row open_transaction authorise rank minimum_role role_allows
    membership_role
small_get = refl
