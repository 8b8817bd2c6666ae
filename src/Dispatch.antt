-- ===== src/Dispatch.antt =====
-- The dispatcher: which organizations that authorized the service have work (persistence/dispatch.py).
pub mod Served
pub mod Rounds
pub mod Idle
mod Tests
use mervio.Jobs.Recovery.{is_expired}
use mervio.Jobs.Schedule.{check_limit}
use mervio.Jobs.Queue.{coalesce}
use mervio.Error.{Result, ◌>>◌, ◌>>=◌, ok, guard, service_identity_error}
use mervio.Jobs.Record.{JobRecord, status_eq, queued}
use mervio.Jobs.Guard.{Instant, is_some}
use mervio.Prelude.{
  List, Option, ℕ, ◌++◌, none, ◌∷◌, Bool, false, true, if◌then◌else◌, take, ◌==◌, some, ◌||◌, ◌&&◌,
  [], ◌-◌, ltb, opt_eq, length, select, not, leb,
}
use mervio.Database.{Authorization, Db}

-- The sub-select of `_READY_SQL`: a job of the organization that can be claimed.
unfoldable pub has_ready : ℕ → ℕ → List JobRecord → Bool
has_ready organization at [] = false
has_ready organization at (row ∷ rows) =
    (row.organization_id == organization
      && (status_eq row.status queued
          && (leb row.available_at at && ltb row.attempts row.max_attempts)))
    || has_ready organization at rows

-- The sub-select of `_EXPIRED_SQL`: a running job of the organization whose lease has run out.
unfoldable pub has_expired : ℕ → ℕ → List JobRecord → Bool
has_expired organization at [] = false
has_expired organization at (row ∷ rows) =
    is_expired organization at row || has_expired organization at rows

-- `%s IS NULL OR sa.organization_id > %s`
abbrev pub is_after : Option ℕ → ℕ → Bool
is_after none organization = true
is_after (some cursor) organization = ltb cursor organization

-- The WHERE of both statements, over `service_authorizations`.
unfoldable pub is_served : (ℕ → Bool) → ℕ → Option ℕ → Authorization → Bool
is_served has_work principal after a =
    a.service_user_id == principal
    && (opt_eq ◌==◌ a.revoked_at none
        && (is_after after a.organization_id && has_work a.organization_id))

-- ORDER BY sa.organization_id
unfoldable pub insert_organization : ℕ → List ℕ → List ℕ
insert_organization o [] = o ∷ []
insert_organization o (p ∷ ps) =
    let rest = insert_organization o ps in if ltb p o then p ∷ rest else o ∷ p ∷ ps

unfoldable pub served_organizations : (Authorization → Bool) → List Authorization → List ℕ
served_organizations test [] = []
served_organizations test (a ∷ as_) =
    let rest = served_organizations test as_ in
    if test a then insert_organization a.organization_id rest else rest

-- `_organizations`, with `_require_connected_principal`.
unfoldable pub organizations : (ℕ → List JobRecord → Bool) → ℕ → Option ℕ → ℕ → Db → Result (List ℕ)
organizations has_work principal after limit db = do
  check_limit limit
  guard (opt_eq ◌==◌ db.connected_service (some principal)) service_identity_error
  ok (
      take limit (
        served_organizations (is_served (λ o. has_work o db.jobs) principal after)
          db.authorizations))

-- `ready_organizations`
unfoldable pub ready_organizations : Instant → ℕ → Option ℕ → ℕ → Option ℕ → Db → Result (List ℕ)
ready_organizations instant principal after limit now db =
    organizations (λ o rows. has_ready o (coalesce now instant.now) rows) principal after limit db

-- `expired_lease_organizations`
unfoldable pub expired_lease_organizations :
    Instant → ℕ → Option ℕ → ℕ → Option ℕ → Db → Result (List ℕ)
expired_lease_organizations instant principal after limit now db =
    organizations (λ o rows. has_expired o (coalesce now instant.now) rows) principal after limit db

-- `Dispatcher`
pub record Dispatcher : Type 0 where
  pub principal : ℕ
  pub batch : ℕ
  pub cursor : Option ℕ

unfoldable pub new_dispatcher : ℕ → ℕ → Result Dispatcher
new_dispatcher principal batch = do
  check_limit batch
  ok (record { principal = principal; batch = batch; cursor = none })

abbrev pub any_of : ℕ → List ℕ → Bool
any_of o [] = false
any_of o (p ∷ ps) = o == p || any_of o ps

-- `found[-1] if found else None`
abbrev pub last_of : List ℕ → Option ℕ
last_of [] = none
last_of (o ∷ []) = some o
last_of (o ∷ p ∷ ps) = last_of (p ∷ ps)

-- The end of a round: it starts again, without serving an organization twice.
unfoldable pub wrap : ℕ → List ℕ → List ℕ → List ℕ
wrap batch found wrapped =
    found ++ take (batch - length found) (select (λ o. not (any_of o found)) wrapped)

unfoldable pub complete_round : Instant → Option ℕ → Dispatcher → List ℕ → Db → Result (List ℕ)
complete_round instant now d found db =
    if ltb (length found) d.batch && is_some d.cursor
    then (do
      wrapped ← ready_organizations instant d.principal none d.batch now db
      ok (wrap d.batch found wrapped))
    else ok found

-- `next_organizations`
unfoldable pub next_organizations :
    Instant → Option ℕ → Dispatcher → Db → Result (List ℕ × Dispatcher)
next_organizations instant now d db = do
  first ← ready_organizations instant d.principal d.cursor d.batch now db
  found ← complete_round instant now d first db
  ok (found, record d { cursor = last_of found })
