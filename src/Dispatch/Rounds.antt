-- ===== src/Dispatch/Rounds.antt =====
-- The rounds of the dispatcher.
use mervio.Jobs.Queue.{coalesce}
use mervio.Dispatch.Served.{Serving, Behind}
use mervio.Database.{Db}
use mervio.Dispatch.{Dispatcher, has_ready}
use mervio.Prelude.{Option, ℕ, List, All, ◌≡◌, length, ◌≤◌, ◌++◌, [], ◌⊎◌, ◌<◌}
use mervio.Jobs.Guard.{Instant}

-- What a round returns: organizations that authorized the connected service and have a job to claim,
-- at most a batch of them.
pub record Round (instant : Instant) (now : Option ℕ) (d : Dispatcher) (db : Db) (found : List ℕ)
    : Type 0 where
  pub served :
      All
        (Serving
          (λ o. has_ready o (coalesce now instant.now) db.jobs)
          d.principal
          db.authorizations)
        found
  pub bounded : length found ≤ d.batch

module _ (instant : Instant) (now : Option ℕ) (d : Dispatcher) (db : Db) where
  -- A round goes on behind the cursor, and starts again where that does not fill a batch.
  abbrev pub GoesOn : List ℕ → Type 0
  GoesOn found =
      (first : List ℕ) × (rest : List ℕ) × (found ≡ first ++ rest)
      × All (Behind d.cursor) first
      × ((rest ≡ []) ⊎ (length first < d.batch))
