-- ===== src/Worker/Lease.antt =====
-- The keeper of an attempt's lease (workers/lease.py). Its thread renews the lease, loses it, or
-- gives the job back; the lock makes each of these one step. Times are numbers of ticks of its clock.
use mervio.Jobs.Record.{JobRecord}
use mervio.Error.{Result, guard, job_lease_lost}
use mervio.Prelude.{
  List, true, Bool, ℕ, Option, if◌then◌else◌, ◌∷◌, min, ◌*◌, false, ◌+◌, [], some, not, leb, ◌||◌,
  ltb, none,
}

-- The durations: `half` is half of `renew_seconds`, `second` is one second.
pub record Durations : Type 0 where
  pub lease : ℕ
  pub half : ℕ
  pub second : ℕ

abbrev pub renew_every : Durations → ℕ
renew_every d = 2 * d.half

-- min(1.0, renew_seconds / 2)
abbrev pub retry_after : Durations → ℕ
retry_after d = min d.second d.half

pub data LossReason : Type 0 where
  lease_lost lease_expired worker_shutdown : LossReason

-- `LeaseKeeper`, with the calls of `on_lost` that were made, the first one at the end.
pub record Keeper : Type 0 where
  pub job : JobRecord
  pub deadline : ℕ
  pub next_renewal : ℕ
  pub stopping : Bool
  pub lost : Bool
  pub loss_reason : Option LossReason
  pub renewals : ℕ
  pub failures : ℕ
  pub told : List LossReason

-- `__init__`; `start` is `started_at`, or the clock.
unfoldable pub new_keeper : Durations → JobRecord → ℕ → Option Keeper
new_keeper d job start =
    if (leb (renew_every d) 0 || leb d.lease 0) || leb d.lease (renew_every d)
    then none
    else some (record {
      job = job;
      deadline = start + d.lease;
      next_renewal = start + renew_every d;
      stopping = false;
      lost = false;
      loss_reason = none;
      renewals = 0;
      failures = 0;
      told = [];
    })

-- `_lose_locked`
unfoldable pub lose : LossReason → Keeper → Keeper
lose reason k =
    if k.lost
    then k
    else record k { loss_reason = some reason; lost = true; told = reason ∷ k.told }

-- What the call of `renew` does: it returns a row, raises `JobLeaseLost`, or raises another error, and
-- then the clock is read again.
pub data Renewal : Type 0 where
  renewed : JobRecord → Renewal
  denied : Renewal
  broken : ℕ → Renewal

-- `_renew_once`
unfoldable pub renew_once : Durations → ℕ → Renewal → Keeper → Keeper
renew_once d sent_at denied k = lose lease_lost k
renew_once d sent_at (broken later) k = record k {
  failures = k.failures + 1;
  next_renewal = later + retry_after d;
}
renew_once d sent_at (renewed job) k = record k {
  job = job;
  renewals = k.renewals + 1;
  deadline = sent_at + d.lease;
  next_renewal = sent_at + renew_every d;
}

-- One turn of `_run` under the lock, at a reading of the clock, and whether the thread goes on.
unfoldable pub turn : Durations → ℕ → Renewal → Keeper → Bool × Keeper
turn d now outcome k =
    if k.stopping || k.lost
    then (false, k)
    else if leb k.deadline now
    then (false, lose lease_expired k)
    else if ltb now k.next_renewal
    then (true, k)
    else (let after : Keeper = renew_once d now outcome k in (not after.lost, after))

-- What the call of `release` does: there is none to call, it returns a row, raises `JobLeaseLost`, or
-- raises another error.
pub data Release : Type 0 where
  absent : Release
  released : JobRecord → Release
  release_denied release_broken : Release

-- `release`
unfoldable pub release : Release → Keeper → Bool × Keeper
release absent k = (false, k)
release (released job) k =
    if k.lost then (false, k) else (true, lose worker_shutdown (record k { job = job }))
release release_denied k = if k.lost then (false, k) else (false, lose lease_lost k)
release release_broken k = if k.lost then (false, k) else (false, lose worker_shutdown k)

-- `stop`, for its effect on the state.
unfoldable pub stop : Keeper → Keeper
stop k = record k { stopping = true }

-- `checkpoint`
unfoldable pub checkpoint : Keeper → Result (Unit {0})
checkpoint k = guard (not k.lost) job_lease_lost

-- What happens to a keeper, in the order in which the lock is taken.
pub data Event : Type 0 where
  turning : ℕ → Renewal → Event
  releasing : Release → Event
  halting : Event

unfoldable pub happen : Durations → Event → Keeper → Keeper
happen d (turning now outcome) k = (turn d now outcome k).1
happen d (releasing r) k = (release r k).1
happen d halting k = stop k

unfoldable pub run : Durations → List Event → Keeper → Keeper
run d [] k = k
run d (e ∷ es) k = run d es (happen d e k)
