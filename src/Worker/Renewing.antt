-- ===== src/Worker/Renewing.antt =====
-- What the keeper of a lease guarantees (workers/lease.py).
use mervio.Jobs.Lineage.{some-eq}
use mervio.Jobs.Record.{JobRecord}
use mervio.Prelude.{
  ◌≡◌, ℕ, List, true, false, inl, some, Bool-cases, refl, inr, [], ◌∷◌, ◌||◌, none, leb, arith, ◌∙◌,
  ◌⊎◌, ltb, if-elim, Bool,
}
use mervio.Worker.Lease.{
  turn, new_keeper, happen, lose, Keeper, release, run, renew_once, Durations, Release, stop,
  LossReason, Event, released, absent, Renewal, turning, renewed, releasing, release_denied,
  worker_shutdown, halting, renew_every, lease_lost, lease_expired, release_broken, broken, denied,
}

-- A keeper that lost its attempt stays as it is, but for the request to stop.
pub record Over (k after : Keeper) : Type 0 where
  pub lost : after.lost ≡ true
  pub reason : after.loss_reason ≡ k.loss_reason
  pub told : after.told ≡ k.told
  pub job : after.job ≡ k.job
  pub renewals : after.renewals ≡ k.renewals
  pub failures : after.failures ≡ k.failures
  pub deadline : after.deadline ≡ k.deadline

Over-same : (k after : Keeper) → k.lost ≡ true → after ≡ k → Over k after
Over-same k after h e = rw e (record {
  lost = h;
  reason = refl;
  told = refl;
  job = refl;
  renewals = refl;
  failures = refl;
  deadline = refl;
})

turn-lost :
    (d : Durations) (now : ℕ) (outcome : Renewal) (k : Keeper)
    → k.lost ≡ true
    → (turn d now outcome k).1 ≡ k
unfolding turn
turn-lost d now outcome k h = ground (arith, h)

release-lost : (r : Release) (k : Keeper) → k.lost ≡ true → (release r k).1 ≡ k
unfolding release
release-lost absent k h = refl
release-lost (released job) k h = rw h refl
release-lost release_denied k h = rw h refl
release-lost release_broken k h = rw h refl

happen-Over : (d : Durations) (e : Event) (k : Keeper) → k.lost ≡ true → Over k (happen d e k)
unfolding happen stop
happen-Over d (turning now outcome) k h = Over-same k _ h (turn-lost d now outcome k h)
happen-Over d (releasing r) k h = Over-same k _ h (release-lost r k h)
happen-Over d halting k h = record {
  lost = h;
  reason = refl;
  told = refl;
  job = refl;
  renewals = refl;
  failures = refl;
  deadline = refl;
}

-- A lost attempt is lost for good: whatever happens next, the keeper renews nothing, releases nothing,
-- tells nobody again, and keeps the first reason, the job and the deadline.
pub lost_for_good :
    (d : Durations) (es : List Event) (k : Keeper) → k.lost ≡ true → Over k (run d es k)
unfolding run
lost_for_good d [] k h = Over-same k k h refl
lost_for_good d (e ∷ es) k h =
    let one = happen-Over d e k h in
    let more = lost_for_good d es (happen d e k) one.lost in
    record {
      lost = more.lost;
      reason = more.reason ∙ one.reason;
      told = more.told ∙ one.told;
      job = more.job ∙ one.job;
      renewals = more.renewals ∙ one.renewals;
      failures = more.failures ∙ one.failures;
      deadline = more.deadline ∙ one.deadline;
    }

-- Either the attempt is held, and nobody was told, or it is lost, and the worker was told once, the
-- reason that the keeper shows.
abbrev pub Told : Keeper → Type 0
Told k =
    ((k.lost ≡ false) × (k.told ≡ []) × (k.loss_reason ≡ none))
    ⊎ ((reason : LossReason) × (k.lost ≡ true)
        × (k.told ≡ reason ∷ [])
        × (k.loss_reason ≡ some reason))

lose-Told : (reason : LossReason) (k : Keeper) → Told k → Told (lose reason k)
unfolding lose
lose-Told reason k t =
    if-elim Told k.lost (λ _. t) (λ held. inr (reason, refl, rw (fresh held t) refl, refl))
  where
    fresh : k.lost ≡ false → Told k → k.told ≡ []
    fresh held (inl t) = t.1
    fresh held (inr t) = cc (held, t.1)

renew_once-Told :
    (d : Durations) (now : ℕ) (outcome : Renewal) (k : Keeper)
    → Told k
    → Told (renew_once d now outcome k)
unfolding renew_once
renew_once-Told d now (renewed job) k t = t
renew_once-Told d now denied k t = lose-Told lease_lost k t
renew_once-Told d now (broken later) k t = t

abbrev TurnTold : Bool × Keeper → Type 0
TurnTold p = Told p.1

turn-Told :
    (d : Durations) (now : ℕ) (outcome : Renewal) (k : Keeper)
    → Told k
    → Told (turn d now outcome k).1
unfolding turn
turn-Told d now outcome k t =
    if-elim TurnTold (k.stopping || k.lost) (λ _. t)
      λ _.
        if-elim TurnTold (leb k.deadline now) (λ _. lose-Told lease_expired k t)
          λ _.
            if-elim TurnTold (ltb now k.next_renewal) (λ _. t)
              λ _. renew_once-Told d now outcome k t

release-Told : (r : Release) (k : Keeper) → Told k → Told (release r k).1
unfolding release
release-Told absent k t = t
release-Told (released job) k t =
    if-elim TurnTold k.lost (λ _. t) (λ _. lose-Told worker_shutdown (record k { job = job }) t)
release-Told release_denied k t = if-elim TurnTold k.lost (λ _. t) (λ _. lose-Told lease_lost k t)
release-Told release_broken k t =
    if-elim TurnTold k.lost (λ _. t) (λ _. lose-Told worker_shutdown k t)

happen-Told : (d : Durations) (e : Event) (k : Keeper) → Told k → Told (happen d e k)
unfolding happen stop
happen-Told d (turning now outcome) k t = turn-Told d now outcome k t
happen-Told d (releasing r) k t = release-Told r k t
happen-Told d halting k t = t

run-Told : (d : Durations) (es : List Event) (k : Keeper) → Told k → Told (run d es k)
unfolding run
run-Told d [] k t = t
run-Told d (e ∷ es) k t = run-Told d es (happen d e k) (happen-Told d e k t)

-- From the start of a keeper, whatever happens, the worker is told of the loss exactly when the attempt
-- is lost, once, with the reason that the keeper shows.
pub single_notice :
    (d : Durations) (job : JobRecord) (start : ℕ) (es : List Event) {k : Keeper}
    → new_keeper d job start ≡ some k
    → Told (run d es k)
unfolding new_keeper
single_notice d job start es {k} h =
    run-Told d es k
      (elim (Bool-cases ((leb (renew_every d) 0 || leb d.lease 0) || leb d.lease (renew_every d))) [
        | inl e ↦ absurd (cc (rw e at h))
        | inr e ↦ rw (← some-eq (rw e at h)) (inl (refl, refl, refl))
      ])
