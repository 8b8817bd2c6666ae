-- ===== src/Audit/Tests.antt =====
-- The theorems on the audit trail, on three events.
use mervio.Tenancy.{authorise, rank, minimum_role, role_allows, membership_role}
use mervio.Error.{ok}
use mervio.Jobs.Sample.{owner_session, sample_db}
use mervio.Jobs.Schedule.{check_limit}
use mervio.Jobs.Guard.{one_day}
use mervio.Database.{AuditEvent, open_transaction, system, purge_completed, outcome_succeeded}
use mervio.Audit.Purging.{UniqueRows, is_takeable, purge_expired_events-kept}
use mervio.Audit.{
  AuditRow, purge_expired_events, organization, expired_events, Filter, list_events, is_listed,
}
use mervio.Prelude.{ℕ, List, Within, ◌*◌, ◌∷◌, none, [], ◌≡◌, false, ◌+◌, arith, some, refl}

abbrev day : ℕ → ℕ
day n = n * one_day

abbrev event_for : ℕ → AuditEvent
event_for o = record {
  organization_id = o;
  store_id = none;
  actor_type = system;
  actor_id = none;
  action = purge_completed;
  resource_id = o;
  correlation_id = 5;
  outcome = outcome_succeeded;
  on_behalf_of = none;
}

abbrev row_at : ℕ → ℕ → ℕ → AuditRow
row_at id o created = record {
  id = id;
  created_at = created;
  resource_type = organization;
  event = event_for o;
}

abbrev trail : List AuditRow
trail = row_at 1 7 (day 1) ∷ row_at 2 7 (day 80) ∷ row_at 3 8 (day 1) ∷ []

-- A purge of all that is older than day 95, on day 100: the floor keeps the second row.
small_purge :
    purge_expired_events sample_db owner_session (day 100) (day 95) 1000 trail
    ≡ ok (row_at 2 7 (day 80) ∷ row_at 3 8 (day 1) ∷ [], 1)
unfolding purge_expired_events expired_events open_transaction check_limit authorise rank
    minimum_role role_allows membership_role
small_purge = refl

trail-UniqueRows : UniqueRows trail
trail-UniqueRows = ((ground arith, (ground arith, tt)), ((ground arith, tt), (tt, tt)))

purge_expired_events-kept_example :
    ((row : AuditRow)
      → Within row trail
      → is_takeable owner_session (day 100) (day 95) row ≡ false
      → Within row (row_at 2 7 (day 80) ∷ row_at 3 8 (day 1) ∷ []))
    × (1 + 2 ≡ 3)
purge_expired_events-kept_example =
    purge_expired_events-kept owner_session (day 100) (day 95) 1000 trail sample_db trail-UniqueRows
      small_purge

abbrev everything : Filter
everything = record {
  resource_type = none;
  resource_id = none;
  correlation_id = none;
  store_id = none;
  action = some (purge_completed ∷ []);
  limit = 50;
}

small_list :
    list_events sample_db owner_session everything trail
    ≡ ok (row_at 1 7 (day 1) ∷ row_at 2 7 (day 80) ∷ [])
unfolding list_events is_listed open_transaction check_limit authorise rank minimum_role role_allows
    membership_role
small_list = refl
