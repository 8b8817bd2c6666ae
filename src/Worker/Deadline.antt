-- ===== src/Worker/Deadline.antt =====
-- The local deadline of the keeper (workers/lease.py) against the lease in the database, on one clock.
use mervio.Jobs.Lineage.{some-eq}
use mervio.Jobs.Guard.{sql_le}
use mervio.Jobs.Record.{JobRecord}
use mervio.Prelude.{
  Bool, ℕ, ◌≡◌, List, if-elim, some, true, All, inl, ◌⊎◌, ◌||◌, ◌∷◌, [], refl, leb, inr, ◌+◌,
  Bool-cases, ltb,
}
use mervio.Worker.Lease.{
  new_keeper, release, turn, Keeper, renew_once, run, lose, Durations, happen, Release, Event, stop,
  LossReason, released, turning, Renewal, worker_shutdown, renewed, releasing, halting, lease_lost,
  broken, absent, lease_expired, denied, renew_every, release_denied, release_broken,
}

-- The database counts the lease from the reception of the request, so the row that a renewal returns
-- does not expire before the time it was sent plus the lease.
abbrev pub Honest : Durations → Event → Type 0
Honest d (turning now (renewed job)) = sql_le (some (now + d.lease)) job.lease_expires_at ≡ true
Honest d (turning now denied) = Unit
Honest d (turning now (broken later)) = Unit
Honest d (releasing r) = Unit
Honest d halting = Unit

-- The attempt is lost, or the row's lease lasts at least until the deadline.
abbrev pub Covered : Keeper → Type 0
Covered k = (k.lost ≡ true) ⊎ (sql_le (some k.deadline) k.job.lease_expires_at ≡ true)

abbrev TurnCovered : Bool × Keeper → Type 0
TurnCovered p = Covered p.1

lose-Covered : (reason : LossReason) (k : Keeper) → Covered (lose reason k)
unfolding lose
lose-Covered reason k = if-elim Covered k.lost (λ e. inl e) (λ _. inl refl)

renew_once-Covered :
    (d : Durations) (now : ℕ) (outcome : Renewal) (k : Keeper)
    → Honest d (turning now outcome)
    → Covered k
    → Covered (renew_once d now outcome k)
unfolding renew_once
renew_once-Covered d now (renewed job) k h c = inr h
renew_once-Covered d now denied k h c = lose-Covered lease_lost k
renew_once-Covered d now (broken later) k h c = c

turn-Covered :
    (d : Durations) (now : ℕ) (outcome : Renewal) (k : Keeper)
    → Honest d (turning now outcome)
    → Covered k
    → Covered (turn d now outcome k).1
unfolding turn
turn-Covered d now outcome k h c =
    if-elim TurnCovered (k.stopping || k.lost) (λ _. c)
      λ _.
        if-elim TurnCovered (leb k.deadline now) (λ _. lose-Covered lease_expired k)
          λ _.
            if-elim TurnCovered (ltb now k.next_renewal) (λ _. c)
              λ _. renew_once-Covered d now outcome k h c

release-Covered : (r : Release) (k : Keeper) → Covered k → Covered (release r k).1
unfolding release
release-Covered absent k c = c
release-Covered (released job) k c =
    if-elim TurnCovered k.lost (λ _. c) (λ _. lose-Covered worker_shutdown (record k { job = job }))
release-Covered release_denied k c =
    if-elim TurnCovered k.lost (λ _. c) (λ _. lose-Covered lease_lost k)
release-Covered release_broken k c =
    if-elim TurnCovered k.lost (λ _. c) (λ _. lose-Covered worker_shutdown k)

happen-Covered :
    (d : Durations) (e : Event) (k : Keeper) → Honest d e → Covered k → Covered (happen d e k)
unfolding happen stop
happen-Covered d (turning now outcome) k h c = turn-Covered d now outcome k h c
happen-Covered d (releasing r) k h c = release-Covered r k c
happen-Covered d halting k h c = c

run-Covered :
    (d : Durations) (es : List Event) (k : Keeper)
    → All (Honest d) es
    → Covered k
    → Covered (run d es k)
unfolding run
run-Covered d [] k h c = c
run-Covered d (e ∷ es) k h c = run-Covered d es (happen d e k) h.1 (happen-Covered d e k h.0 c)

-- When the lease of the claim, and of every row that a renewal returns, lasts at least the lease time
-- from the moment the request was sent, then at any time after any events a keeper that has not lost
-- its attempt has a deadline that is not later than the lease of its row.
pub deadline_covered :
    (d : Durations) (job : JobRecord) (start : ℕ) (es : List Event) {k : Keeper}
    → new_keeper d job start ≡ some k
    → sql_le (some (start + d.lease)) job.lease_expires_at ≡ true
    → All (Honest d) es
    → ((run d es k).lost ≡ true)
      ⊎ (sql_le (some (run d es k).deadline) (run d es k).job.lease_expires_at ≡ true)
unfolding new_keeper
deadline_covered d job start es {k} h lasts honest =
    run-Covered d es k honest
      (elim (Bool-cases ((leb (renew_every d) 0 || leb d.lease 0) || leb d.lease (renew_every d))) [
        | inl e ↦ absurd (cc (rw e at h))
        | inr e ↦ rw (← some-eq (rw e at h)) (inr lasts)
      ])
