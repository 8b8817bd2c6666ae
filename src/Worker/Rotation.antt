-- ===== src/Worker/Rotation.antt =====
-- How a worker that serves a dispatcher claims a job (`claim` and `_claim_in` of workers/worker.py).
use mervio.Jobs.Queue.{Claim, claim_next_job}
use mervio.Error.{Result, ok, ◌>>=◌, err, tenant_access_denied, Error}
use mervio.Jobs.Guard.{Instant}
use mervio.Jobs.Record.{JobRecord}
use mervio.Database.{Session, Db, service, Hook}
use mervio.Prelude.{Option, ℕ, List, Bool, none, ◌∷◌, some, [], if◌then◌else◌, true, false}
use mervio.Dispatch.{Dispatcher, next_organizations}

-- The state that `claim` keeps: the dispatcher, and the organizations of its last round that were not
-- tried yet.
pub record Rotation : Type 0 where
  pub dispatcher : Dispatcher
  pub pending : List ℕ

-- `dispatcher.session`
abbrev pub session_for : Dispatcher → ℕ → Session
session_for d organization =
    service (record { organization_id = organization; principal = d.principal })

-- A job that was claimed, with the organization of its session.
abbrev pub Found : Type 0
Found = Option (ℕ × JobRecord)

-- `except TenantAccessDenied: continue`: a revoked authorization counts as no job.
abbrev pub is_denied : Error → Bool
is_denied tenant_access_denied = true
is_denied _ = false

unfoldable pub claimed_for : ℕ → Db → Result (Option JobRecord × Db) → Result (Found × Db)
claimed_for organization db (err e) = if is_denied e then ok (none, db) else err e
claimed_for organization db (ok (none, after)) = ok (none, after)
claimed_for organization db (ok (some job, after)) = ok (some (organization, job), after)

-- `_claim_in`, where each organization has a transaction of its own and so an instant of its own.
unfoldable pub claim_in :
    (ℕ → Bool) → (ℕ → Instant) → Hook → Claim → Dispatcher → ℕ → Db → Result (Found × Db)
claim_in locked i hook claim d organization db =
    claimed_for organization db
      (claim_next_job locked (session_for d organization) (i organization) hook claim db)

-- The turns of the loop of `claim` until the pending organizations are used up.
unfoldable pub try_pending :
    (ℕ → Db → Result (Found × Db)) → List ℕ → Db → Result (Found × List ℕ × Db)
try_pending claim_one [] db = ok (none, [], db)
try_pending claim_one (o ∷ os) db = do
  (claimed, after) ← claim_one o db
  elim claimed [ some job ↦ ok (some job, os, after) | none ↦ try_pending claim_one os after ]

-- `claim`, with a dispatcher: the pending organizations, then those of one new round.
unfoldable pub claim_dispatched :
    (ℕ → Bool)
    → Instant
    → (ℕ → Instant)
    → Hook
    → Claim
    → Rotation
    → Db
    → Result (Found × Rotation × Db)
claim_dispatched locked now i hook claim r db = do
  (first, rest, mid) ← try_pending (claim_in locked i hook claim r.dispatcher) r.pending db
  elim first [
    | some job ↦ ok (some job, record r { pending = rest }, mid)
    | none ↦ (do
      (found, next) ← next_organizations now claim.now r.dispatcher mid
      (second, left, after) ← try_pending (claim_in locked i hook claim next) found mid
      ok (second, record { dispatcher = next; pending = left }, after))
  ]
