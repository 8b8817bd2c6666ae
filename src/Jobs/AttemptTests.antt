-- ===== src/Jobs/AttemptTests.antt =====
-- The theorems on the attempts and on single statements, at the sample database.
use mervio.Jobs.Publishing.{Ready, Published, Succeeded, mark_succeeded_total}
use mervio.Jobs.Failing.{PublishLaws, Requeued, mark_failed_retries}
use mervio.Json.Stored.{check_jsonb, storable_fields}
use mervio.Database.{AuditEvent, Db}
use mervio.Jobs.Renewal.{Renewed}
use mervio.Jobs.Agreement.TakingBack.{TakenBack}
use mervio.Prelude.{List}
use mervio.Jobs.Transitions.{legal_transition-allowed_transition}
use mervio.Jobs.Recovery.{taken_back}
use mervio.Jobs.Agreement.TakingBack.{recovery_settings, take_back_accepted}
use mervio.Jobs.Renewal.{renew_lease_total}
use mervio.Json.{end}
use mervio.Database.{no_hook}
use mervio.Error.{ok}
use mervio.Jobs.Sample.{
  worker_session, noon, running_row, sample_db, sample_db-IsValid, worker_session-opens,
}
use mervio.Json.Dump.{fields_width, str_len}
use mervio.Jobs.Payload.{validate_payload, validate_fields}
use mervio.Jobs.Attempt.{
  Publish, error_code, Failure, renew_lease, will_retry, mark_failed, owns, mark_succeeded,
}
use mervio.Jobs.Queue.{find_row}
use mervio.Jobs.Schedule.{check_lease_seconds, backoff_seconds}
use mervio.Jobs.Guard.{
  row_checks, Instant, lock_consistent, finished_consistent, texts_in_range, write_row,
  legal_transition,
}
use mervio.Jobs.Record.{JobRecord, running, allowed_transition, status_eq}
use mervio.Prelude.{
  ◌≡◌, Bool-cases, true, if◌then◌else◌, false, Bool, leb, none, some, inl, leb→le, inr, arith, refl,
  ◌||◌, ◌&&◌,
}

-- A publication that leaves texts alone, and drops a message that is too long.
abbrev plain : Publish
plain = record { strip = λ s. s; safe_error = λ s. if leb (str_len s) 2000 then s else "" }

plain-PublishLaws : PublishLaws plain
plain-PublishLaws = record {
  strip_idem = λ s. refl;
  safe_length = λ s. elim (Bool-cases (leb (str_len s) 2000)) [
    | inl short ↦ rw short (leb→le (str_len s) 2000 short)
    | inr long ↦ rw long (omega arith)
  ];
}

sample-Ready : Ready worker_session running_row "w2" running_row sample_db
unfolding find_row row_checks lock_consistent finished_consistent texts_in_range
sample-Ready = record {
  sound = sample_db-IsValid;
  found = refl;
  ours = refl;
  opened = worker_session-opens;
  held = record { active = refl; locked = refl; attempt_of = refl; valid = refl };
}

abbrev ours : JobRecord → Bool
ours = owns 7 running_row (some "w2")

quiet_hook : (x : JobRecord) → (trail : List AuditEvent) × (no_hook x sample_db.audit ≡ ok trail)
quiet_hook x = (sample_db.audit, refl)

mark_succeeded_total_example :
    (new : JobRecord) × (after : Db) × (mark_succeeded worker_session noon no_hook running_row end
        none none sample_db
      ≡ ok (new, after))
    × Published worker_session noon no_hook running_row "w2" running_row sample_db sample-Ready new
        after
    × Succeeded worker_session noon no_hook running_row "w2" running_row sample_db sample-Ready end
        none new
unfolding validate_payload validate_fields fields_width check_jsonb storable_fields
mark_succeeded_total_example =
    mark_succeeded_total worker_session noon no_hook running_row "w2" running_row sample_db
      sample-Ready end end none none refl refl refl refl quiet_hook

abbrev permanent : Failure
permanent = record {
  code = "invalid_file";
  error = "bad";
  retryable = false;
  worker_id = none;
  now = none;
  backoff_base = 30;
  backoff_cap = 3600;
}

abbrev transient : Failure
transient = record permanent { retryable = true }

mark_failed_retries_example :
    (new : JobRecord) × (after : Db) × (mark_failed plain worker_session noon no_hook running_row
        transient sample_db
      ≡ ok (new, after))
    × Published worker_session noon no_hook running_row "w2" running_row sample_db sample-Ready new
        after
    × Requeued plain plain-PublishLaws worker_session noon no_hook running_row "w2" running_row
        sample_db sample-Ready transient "invalid_file" 60 new
unfolding error_code will_retry backoff_seconds
mark_failed_retries_example =
    mark_failed_retries plain plain-PublishLaws worker_session noon no_hook running_row "w2"
      running_row sample_db sample-Ready transient "invalid_file" 60 refl refl refl refl
      (omega arith) quiet_hook

renew_lease_total_example :
    (new : JobRecord) × (after : Db) × (renew_lease worker_session noon no_hook running_row none 120
        none sample_db
      ≡ ok (new, after))
    × Published worker_session noon no_hook running_row "w2" running_row sample_db sample-Ready new
        after
    × Renewed worker_session noon no_hook running_row "w2" running_row sample_db sample-Ready 120
        new
unfolding check_lease_seconds
renew_lease_total_example =
    renew_lease_total worker_session noon no_hook running_row "w2" running_row sample_db
      sample-Ready none 120 refl refl (omega arith) refl refl quiet_hook

abbrev late : Instant
late = record { now = 120002000; clock = 120002001; guard_clock = 120002002 }

take_back_accepted_example :
    (new : JobRecord) × (write_row late
        (recovery_settings 120002000)
        running_row
        (taken_back late 120002000 running_row running_row)
      ≡ ok new)
    × TakenBack 120002000 running_row new
unfolding row_checks lock_consistent finished_consistent texts_in_range
take_back_accepted_example = take_back_accepted late 120002000 running_row refl refl refl refl

legal_transition-allowed_transition_example : legal_transition running running ≡ (
    allowed_transition running running || (status_eq running running && status_eq running running))
legal_transition-allowed_transition_example = legal_transition-allowed_transition running running
