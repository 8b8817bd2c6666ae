-- ===== src/Audit.antt =====
-- The audit trail as its own operations see it (persistence/audit.py), with the deletion policy of
-- revision 0005_audit. Instants are whole microseconds.
pub mod Purging
pub mod Listing
mod Tests
use mervio.Jobs.Schedule.{check_limit}
use mervio.Tenancy.{purge_data, read_audit}
use mervio.Jobs.Guard.{one_day}
use mervio.Error.{Result, ◌>>◌, ok}
use mervio.Prelude.{
  sort_by, Option, ℕ, Bool, ◌&&◌, true, ltb, List, ◌*◌, false, ◌==◌, ◌||◌, some, ◌+◌, ◌∷◌, take,
  none, [], select, length, not,
}
use mervio.Database.{
  Action, AuditEvent, Db, Session, analysis_failed, analysis_started, analysis_succeeded,
  connection_created, fetch_store, import_failed, import_started, import_succeeded, job_cancelled,
  job_claimed, job_enqueued, job_failed, job_recovered, job_requeued, job_succeeded, member_added,
  open_transaction, organization_created, organization_of, purge_completed, purge_started,
  service_authorized_, service_revoked, store_created,
}

pub data ResourceType : Type 0 where
  job snapshot analysis_run report organization membership store connection : ResourceType
  service_authorization : ResourceType

abbrev pub resource_eq : ResourceType → ResourceType → Bool
resource_eq job job = true
resource_eq snapshot snapshot = true
resource_eq analysis_run analysis_run = true
resource_eq report report = true
resource_eq organization organization = true
resource_eq membership membership = true
resource_eq store store = true
resource_eq connection connection = true
resource_eq service_authorization service_authorization = true
resource_eq _ _ = false

-- The code of an action, for its comparison.
abbrev action_code : Action → ℕ
action_code job_enqueued = 0
action_code job_claimed = 1
action_code job_succeeded = 2
action_code job_failed = 3
action_code job_requeued = 4
action_code job_recovered = 5
action_code job_cancelled = 6
action_code import_started = 7
action_code import_succeeded = 8
action_code import_failed = 9
action_code analysis_started = 10
action_code analysis_succeeded = 11
action_code analysis_failed = 12
action_code purge_started = 13
action_code purge_completed = 14
action_code organization_created = 15
action_code member_added = 16
action_code store_created = 17
action_code connection_created = 18
action_code service_authorized_ = 19
action_code service_revoked = 20

abbrev any_action : Action → List Action → Bool
any_action a [] = false
any_action a (b ∷ bs) = action_code a == action_code b || any_action a bs

-- A row of `audit_events`: what the database gives it, and the event.
pub record AuditRow : Type 0 where
  pub id : ℕ
  pub created_at : ℕ
  pub resource_type : ResourceType
  pub event : AuditEvent

abbrev pub is_own : Session → AuditRow → Bool
is_own session row = row.event.organization_id == organization_of session

-- ORDER BY created_at ASC, id ASC
abbrev pub older : AuditRow → AuditRow → Bool
older a b = ltb a.created_at b.created_at || (a.created_at == b.created_at && ltb a.id b.id)

-- AUDIT_FLOOR
abbrev pub audit_floor : ℕ
audit_floor = 30 * one_day

-- The policy audit_events_retention_floor: created_at < now() - interval '30 days'
abbrev pub past_floor : ℕ → AuditRow → Bool
past_floor now row = ltb (row.created_at + audit_floor) now

abbrev pub any_row : ℕ → List AuditRow → Bool
any_row id [] = false
any_row id (row ∷ rows) = row.id == id || any_row id rows

-- The sub-select of `purge_expired_events`.
unfoldable pub expired_events : Session → ℕ → ℕ → List AuditRow → List AuditRow
expired_events session before limit rows =
    take limit
      (sort_by older (select (λ row. is_own session row && ltb row.created_at before) rows))

-- The WHERE of its DELETE, and the rows that the policy lets it see.
abbrev pub is_purged : Session → ℕ → List AuditRow → AuditRow → Bool
is_purged session now chosen row =
    is_own session row && (any_row row.id chosen && past_floor now row)

-- `purge_expired_events`, at the start of its transaction: the rows that stay, and how many went.
unfoldable pub purge_expired_events :
    Db → Session → ℕ → ℕ → ℕ → List AuditRow → Result (List AuditRow × ℕ)
purge_expired_events db session now before limit rows = do
  open_transaction db session purge_data
  check_limit limit
  let chosen : List AuditRow = expired_events session before limit rows
  ok (
    select (λ row. not (is_purged session now chosen row)) rows,
    length (select (is_purged session now chosen) rows),
  )

-- The arguments of `list_events`.
pub record Filter : Type 0 where
  pub resource_type : Option ResourceType
  pub resource_id : Option ℕ
  pub correlation_id : Option ℕ
  pub store_id : Option ℕ
  pub action : Option (List Action)
  pub limit : ℕ

-- `%s IS NULL OR column = %s`
abbrev pub unless_none {ℓ} : {A : Type ℓ} → (A → Bool) → Option A → Bool
unless_none test none = true
unless_none test (some a) = test a

abbrev sql_equal : ℕ → Option ℕ → Bool
sql_equal a none = false
sql_equal a (some b) = a == b

-- The WHERE of `list_events`.
unfoldable pub is_listed : Session → Filter → AuditRow → Bool
is_listed session f row =
    is_own session row
    && (unless_none (λ t. resource_eq row.resource_type t) f.resource_type
        && (unless_none (λ i. row.event.resource_id == i) f.resource_id
            && (unless_none (λ c. row.event.correlation_id == c) f.correlation_id
                && (unless_none (λ s. sql_equal s row.event.store_id) f.store_id
                    && unless_none (λ actions. any_action row.event.action actions) f.action))))

-- `fetch_store`, for a store that is given.
abbrev pub check_listed_store : Db → Session → Option ℕ → Result (Unit {0})
check_listed_store db session none = ok tt
check_listed_store db session (some s) = fetch_store db session s

unfoldable pub list_events : Db → Session → Filter → List AuditRow → Result (List AuditRow)
list_events db session f rows = do
  open_transaction db session read_audit
  check_listed_store db session f.store_id
  check_limit f.limit
  ok (take f.limit (sort_by older (select (is_listed session f) rows)))

unfoldable pub count_events : Db → Session → List AuditRow → Result ℕ
count_events db session rows = do
  open_transaction db session read_audit
  ok (length (select (is_own session) rows))
