-- ===== src/Worker/PublicationTests.antt =====
-- The publication loop at an outage that passes, and a claim that finds no job.
use mervio.Worker.Turns.{claim_dispatched-none, Vain}
use mervio.Jobs.Schedule.{check_lease_seconds, pick_first, check_limit}
use mervio.Error.{ok}
use mervio.Jobs.Queue.{claim_next_job, check_worker_id, claim_candidate, is_candidate}
use mervio.Dispatch.{
  next_organizations, ready_organizations, organizations, served_organizations, is_served,
  has_ready, complete_round,
}
use mervio.Worker.Rotation.{claim_dispatched, Rotation, try_pending, claim_in, claimed_for}
use mervio.Database.{Db, open_transaction, no_hook, authorise_service, service_authorized}
use mervio.Jobs.Sample.{finished_row, sample_db, foreign_row, noon, sample_claim, unlocked}
use mervio.Worker.Trying.{Passed, publish-Passed, publish_returns}
use mervio.Prelude.{
  ℕ, ◌+◌, if◌then◌else◌, suc, ◌*◌, none, arith, ◌≡◌, ◌==◌, some, refl, List, [], ◌∷◌, All,
}
use mervio.Worker.Publication.{
  publish, publish_from, published, Try, Fate, gives_up, raised, returned,
}
use mervio.Worker.Failures.{
  Raised, operational_error, retryable_database_error, retryable_sqlstates,
}

abbrev outage : Raised
outage = record { kind = operational_error; sqlstate = none; constraint_name = none }

abbrev one_outage : ℕ → Try
one_outage n = if n == 0 then raised outage else returned finished_row

-- A fifth of a second for each try.
abbrev steady : ℕ → ℕ
steady n = 1000 + 200 * n

publishes_second : publish one_outage steady 60000 5 ≡ some (1, published finished_row)
unfolding publish publish_from gives_up retryable_database_error retryable_sqlstates
publishes_second = refl

publish-Passed_example : Passed one_outage steady 60000 0
publish-Passed_example = publish-Passed one_outage steady 60000 5 0 publishes_second (omega arith)

publish_returns_example :
    (k : ℕ) × (fate : Fate) × (publish one_outage steady 60000 (suc 600) ≡ some (k, fate))
publish_returns_example =
    publish_returns one_outage steady 60000 600 (λ j. omega arith) (omega arith)

abbrev quiet_db : Db
quiet_db = record sample_db { jobs = finished_row ∷ foreign_row ∷ [] }

abbrev resting : Rotation
resting = record {
  dispatcher = record { principal = 3; batch = 50; cursor = none };
  pending = 7 ∷ [];
}

abbrev rested : Rotation
rested = record { dispatcher = resting.dispatcher; pending = [] }

claims_nothing :
    claim_dispatched unlocked noon (λ o. noon) no_hook sample_claim resting quiet_db
    ≡ ok (none, rested, quiet_db)
unfolding claim_dispatched try_pending claim_in claimed_for claim_next_job check_worker_id
    check_lease_seconds open_transaction authorise_service service_authorized claim_candidate
    pick_first is_candidate next_organizations ready_organizations organizations check_limit
    served_organizations is_served has_ready complete_round
claims_nothing = refl

claim_dispatched-none_example :
    (quiet_db ≡ quiet_db)
    × (◌≡◌ {A = List ℕ} rested.pending [])
    × ((found : List ℕ) × (next_organizations noon sample_claim.now resting.dispatcher quiet_db
          ≡ ok (found, rested.dispatcher))
        × All (Vain unlocked (λ o. noon) no_hook sample_claim rested.dispatcher quiet_db) found)
    × All
        (Vain unlocked (λ o. noon) no_hook sample_claim resting.dispatcher quiet_db)
        resting.pending
claim_dispatched-none_example =
    claim_dispatched-none unlocked (λ o. noon) no_hook sample_claim noon resting quiet_db
      claims_nothing
