-- ===== src/Worker/Tests.antt =====
-- The theorems on the worker, on small runs.
use mervio.Worker.Classification.{may_retry, classify-may_retry}
use mervio.Worker.Failures.{classify, Raised, operational_error}
use mervio.Worker.Deadline.{deadline_covered}
use mervio.Jobs.Guard.{sql_le}
use mervio.Jobs.Sample.{running_row}
use mervio.Prelude.{List, false, some, true, ◌≡◌, ◌⊎◌, none, [], refl, ◌∷◌}
use mervio.Jobs.Record.{JobRecord}
use mervio.Worker.Lease.{
  Keeper, Durations, new_keeper, Event, run, turning, renewed, broken, denied,
}

-- One tick is a microsecond: a lease of a minute, renewed every twenty seconds.
abbrev minute : Durations
minute = record { lease = 60000000; half = 10000000; second = 1000000 }

abbrev held : JobRecord
held = record running_row { lease_expires_at = some 60001000 }

abbrev kept : Keeper
kept = record {
  job = held;
  deadline = 60000000;
  next_renewal = 20000000;
  stopping = false;
  lost = false;
  loss_reason = none;
  renewals = 0;
  failures = 0;
  told = [];
}

abbrev renewed_job : JobRecord
renewed_job = record held { lease_expires_at = some 80000007 }

abbrev events : List Event
events =
    turning 20000000 (renewed renewed_job)
    ∷ turning 40000000 (broken 40000001)
    ∷ turning 90000000 denied
    ∷ []

deadline_covered_example :
    ((run minute events kept).lost ≡ true)
    ⊎ (sql_le (some (run minute events kept).deadline) (run minute events kept).job.lease_expires_at
        ≡ true)
unfolding new_keeper
deadline_covered_example = deadline_covered minute held 0 events refl refl (refl, (tt, (tt, tt)))

abbrev deadlock : Raised
deadlock = record { kind = operational_error; sqlstate = some "40P01"; constraint_name = none }

classify-may_retry_example :
    (classify deadlock).retryable ≡ may_retry operational_error (some "40P01")
classify-may_retry_example = classify-may_retry deadlock
