-- ===== src/Jobs/Permits.antt =====
-- What the kind of a call of persistence/jobs.py says of the status that it may write.
use mervio.Jobs.Machine.{
  CallKind, permits, may_return, may_give_up, by_enqueue, by_claim, by_renewal, by_success,
  by_failure, by_requeue, by_cancel, by_recovery, by_purge,
}
use mervio.Prelude.{◌≡◌, true, arith, refl}
use mervio.Jobs.Record.{JobStatus, queued, running, succeeded, failed, cancelled}

pub waiting-permits :
    (k : CallKind) (t : JobStatus) → permits k queued t ≡ true → t ≡ running → k ≡ by_claim
waiting-permits by_claim t h e = refl
waiting-permits by_enqueue t h e = cc h
waiting-permits by_renewal t h e = cc h
waiting-permits by_success t h e = cc (rw e at h)
waiting-permits by_failure t h e = cc (rw e at h)
waiting-permits by_requeue t h e = cc (rw e at h)
waiting-permits by_cancel t h e = cc (rw e at h)
waiting-permits by_recovery t h e = cc (rw e at h)
waiting-permits by_purge t h e = cc h

pub permits-cancelled :
    (k : CallKind) (s : JobStatus) → permits k s cancelled ≡ true → k ≡ by_cancel
permits-cancelled by_cancel s h = refl
permits-cancelled by_claim s h = cc h
permits-cancelled by_enqueue s h = cc h
permits-cancelled by_renewal s h = ground (arith, h)
permits-cancelled by_success s h = cc h
permits-cancelled by_failure s h = cc h
permits-cancelled by_requeue s h = cc h
permits-cancelled by_recovery s h = cc h
permits-cancelled by_purge s h = cc h

pub permits-succeeded :
    (k : CallKind) (s : JobStatus) → permits k s succeeded ≡ true → k ≡ by_success
permits-succeeded by_success s h = refl
permits-succeeded by_cancel s h = cc h
permits-succeeded by_claim s h = cc h
permits-succeeded by_enqueue s h = cc h
permits-succeeded by_renewal s h = ground (arith, h)
permits-succeeded by_failure s h = cc h
permits-succeeded by_requeue s h = cc h
permits-succeeded by_recovery s h = cc h
permits-succeeded by_purge s h = cc h

pub permits-failed :
    (k : CallKind) (s : JobStatus) → permits k s failed ≡ true → may_give_up k ≡ true
permits-failed by_failure s h = refl
permits-failed by_recovery s h = refl
permits-failed by_success s h = cc h
permits-failed by_cancel s h = cc h
permits-failed by_claim s h = cc h
permits-failed by_enqueue s h = cc h
permits-failed by_renewal s h = ground (arith, h)
permits-failed by_requeue s h = cc h
permits-failed by_purge s h = cc h

pub permits-queued :
    (k : CallKind) (s : JobStatus) → permits k s queued ≡ true → may_return k ≡ true
permits-queued by_failure s h = refl
permits-queued by_recovery s h = refl
permits-queued by_requeue s h = refl
permits-queued by_success s h = cc h
permits-queued by_cancel s h = cc h
permits-queued by_claim s h = cc h
permits-queued by_enqueue s h = cc h
permits-queued by_renewal s h = ground (arith, h)
permits-queued by_purge s h = cc h
