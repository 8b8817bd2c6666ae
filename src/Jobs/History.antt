-- ===== src/Jobs/History.antt =====
-- Sequences of operations of persistence/jobs.py, by any sessions, workers and organizations.
use mervio.Jobs.Machine.{
  CallKind, by_enqueue, by_claim, by_renewal, by_success, by_failure, by_requeue, by_cancel,
  by_recovery, by_purge,
}
use mervio.Jobs.Returned.{In-row_of, All-In}
use mervio.Jobs.Isolation.{foreign, foreign-Table}
use mervio.Jobs.Steps.Recovery.{recover_stale_jobs-Table, purge_terminal_jobs-Table}
use mervio.Json.{Fields}
use mervio.Jobs.Recovery.{recover_stale_jobs, purge_terminal_jobs}
use mervio.Jobs.Steps.{stays}
use mervio.Jobs.Steps.Attempt.{
  renew_lease-Table, mark_succeeded-Table, mark_failed-Table, requeue-Table,
}
use mervio.Jobs.Attempt.{
  renew_lease, mark_succeeded, mark_failed, requeue, Publish, Failure, Requeue,
}
use mervio.Jobs.Lineage.{row_of, Descends, row_of-Table, Lineage}
use mervio.Jobs.Steps.Queue.{enqueue_job-Table, claim_next_job-Table, cancel_job-Table}
use mervio.Jobs.Table.{Table, IsValid, Table-IsValid}
use mervio.Jobs.Record.{JobRecord, JobStatus, is_terminal_status}
use mervio.Jobs.Guard.{Instant, row_checks}
use mervio.Jobs.Queue.{enqueue_job, claim_next_job, Request, Claim, cancel_job}
use mervio.Error.{Result, ok, Result-cases, err}
use mervio.Database.{Session, Db, organization_of, Hook}
use mervio.Prelude.{
  List, ℕ, ◌∷◌, ◌≡◌, select, ◌==◌, some, inl, Bool, inr, Option, String, [], ◌≢◌, refl, All, sym,
  ◌∙◌, Bool-cases, ap, arith, ◌≤◌, true, none, ◌⊎◌,
}

-- One call of a function of persistence/jobs.py, with what its caller and the clock give.
pub data Operation : Type 0 where
  enqueue : Session → Instant → Hook → Request → Operation
  claim : (ℕ → Bool) → Session → Instant → Hook → Claim → Operation
  renew : Session → Instant → Hook → JobRecord → Option String → ℕ → Option ℕ → Operation
  succeed : Session → Instant → Hook → JobRecord → Fields → Option String → Option ℕ → Operation
  fail : Publish → Session → Instant → Hook → JobRecord → Failure → Operation
  give_back : Publish → Session → Instant → Hook → JobRecord → Requeue → Operation
  cancel : Session → Instant → Hook → ℕ → Operation
  recover : (ℕ → Bool) → Session → Instant → Hook → Option ℕ → ℕ → Operation
  purge_jobs : Session → Instant → ℕ → List JobStatus → ℕ → Operation

-- The organization that a call acts for.
abbrev pub acts_for : Operation → ℕ
acts_for (enqueue s _ _ _) = organization_of s
acts_for (claim _ s _ _ _) = organization_of s
acts_for (renew s _ _ _ _ _ _) = organization_of s
acts_for (succeed s _ _ _ _ _ _) = organization_of s
acts_for (fail _ s _ _ _ _) = organization_of s
acts_for (give_back _ s _ _ _ _) = organization_of s
acts_for (cancel s _ _ _) = organization_of s
acts_for (recover _ s _ _ _ _) = organization_of s
acts_for (purge_jobs s _ _ _ _) = organization_of s

-- The kind of a call.
abbrev pub kind_of : Operation → CallKind
kind_of (enqueue _ _ _ _) = by_enqueue
kind_of (claim _ _ _ _ _) = by_claim
kind_of (renew _ _ _ _ _ _ _) = by_renewal
kind_of (succeed _ _ _ _ _ _ _) = by_success
kind_of (fail _ _ _ _ _ _) = by_failure
kind_of (give_back _ _ _ _ _ _) = by_requeue
kind_of (cancel _ _ _ _) = by_cancel
kind_of (recover _ _ _ _ _ _) = by_recovery
kind_of (purge_jobs _ _ _ _ _) = by_purge

abbrev pub only_db {ℓ} : {A : Type ℓ} → Result (A × Db) → Result Db
only_db (ok p) = ok p.1
only_db (err e) = err e

-- The call, for its effect on the database.
unfoldable pub perform : Operation → Db → Result Db
perform (enqueue s i h r) db = only_db (enqueue_job s i h r db)
perform (claim locked s i h c) db = only_db (claim_next_job locked s i h c db)
perform (renew s i h j w l t) db = only_db (renew_lease s i h j w l t db)
perform (succeed s i h j r w n) db = only_db (mark_succeeded s i h j r w n db)
perform (fail p s i h j f) db = only_db (mark_failed p s i h j f db)
perform (give_back p s i h j r) db = only_db (requeue p s i h j r db)
perform (cancel s i h id) db = only_db (cancel_job s i h id db)
perform (recover locked s i h n l) db = only_db (recover_stale_jobs locked s i h n l db)
perform (purge_jobs s i b st l) db = only_db (purge_terminal_jobs s i b st l db)

-- A call that raises is rolled back.
unfoldable pub attempt : Operation → Db → Db
attempt op db = elim (perform op db) [ ok after ↦ after | err e ↦ db ]

unfoldable pub history : List Operation → Db → Db
history [] db = db
history (op ∷ ops) db = history ops (attempt op db)

pub only_db-ok {ℓ} :
    {A : Type ℓ} (m : Result (A × Db)) {after : Db}
    → only_db m ≡ ok after
    → (a : A) × (m ≡ ok (a, after))
only_db-ok (ok (a, db)) h = (a, cc h)
only_db-ok (err e) h = cc

pub attempt-ok :
    (op : Operation) (db : Db) {after : Db} → perform op db ≡ ok after → attempt op db ≡ after
unfolding attempt
attempt-ok op db h = rw (h, attempt) refl

perform-Table :
    (op : Operation) (db : Db) {after : Db}
    → perform op db ≡ ok after
    → Table (acts_for op) (kind_of op) db.jobs after.jobs
unfolding perform
perform-Table (enqueue s i k r) db h =
    enqueue_job-Table s i k r db (only_db-ok (enqueue_job s i k r db) h).1
perform-Table (claim locked s i k c) db h =
    claim_next_job-Table s i k locked c db (only_db-ok (claim_next_job locked s i k c db) h).1
perform-Table (renew s i k j w l t) db h =
    renew_lease-Table s i k j w l t db (only_db-ok (renew_lease s i k j w l t db) h).1
perform-Table (succeed s i k j r w n) db h =
    mark_succeeded-Table s i k j r w n db (only_db-ok (mark_succeeded s i k j r w n db) h).1
perform-Table (fail p s i k j f) db h =
    mark_failed-Table s i k p j f db (only_db-ok (mark_failed p s i k j f db) h).1
perform-Table (give_back p s i k j r) db h =
    requeue-Table s i k by_requeue p j r db (λ t. refl) (only_db-ok (requeue p s i k j r db) h).1
perform-Table (cancel s i k id) db h =
    cancel_job-Table s i k id db (only_db-ok (cancel_job s i k id db) h).1
perform-Table (recover locked s i k n l) db h =
    recover_stale_jobs-Table s i locked k n l db
      (only_db-ok (recover_stale_jobs locked s i k n l db) h).1
perform-Table (purge_jobs s i b st l) db h =
    purge_terminal_jobs-Table s i b st l db (only_db-ok (purge_terminal_jobs s i b st l db) h).1

pub attempt-Table :
    (op : Operation) (db : Db) → Table (acts_for op) (kind_of op) db.jobs (attempt op db).jobs
unfolding attempt
attempt-Table op db = elim (Result-cases (perform op db)) [
  | inl p ↦ rw (p.1, attempt) (perform-Table op db p.1)
  | inr p ↦ rw (p.1, attempt) (stays (acts_for op) (kind_of op) db.jobs db.jobs refl)
]

-- The rows of one organization.
abbrev pub owned : ℕ → List JobRecord → List JobRecord
owned organization = select (λ row. row.organization_id == organization)

owned-foreign :
    (own other : ℕ) (rows : List JobRecord)
    → other ≢ own
    → owned own (foreign other rows) ≡ owned own rows
owned-foreign own other [] ne = refl
owned-foreign own other (row ∷ rows) ne = elim (Bool-cases (row.organization_id == other)) [
  | inl e ↦ ground (arith, e, ne, owned-foreign own other rows ne)
  | inr e ↦ ground (arith, e, owned-foreign own other rows ne)
]

attempt-owned :
    (op : Operation) (db : Db) (organization : ℕ)
    → acts_for op ≢ organization
    → owned organization (attempt op db).jobs ≡ owned organization db.jobs
attempt-owned op db organization ne =
    sym (owned-foreign organization (acts_for op) (attempt op db).jobs ne)
    ∙ ap (owned organization) (foreign-Table (acts_for op) (kind_of op) (attempt-Table op db))
    ∙ owned-foreign organization (acts_for op) db.jobs ne

-- No sequence of operations that act for other organizations adds, changes or removes a row of an
-- organization.
pub history-owned :
    (ops : List Operation) (db : Db) (organization : ℕ)
    → All (λ op. acts_for op ≢ organization) ops
    → owned organization (history ops db).jobs ≡ owned organization db.jobs
unfolding history
history-owned [] db organization h = refl
history-owned (op ∷ ops) db organization h =
    history-owned ops (attempt op db) organization h.1 ∙ attempt-owned op db organization h.0

-- One operation, whoever calls it, leaves the row of an identifier as it descends: a finished row as
-- it is, any other with its owner, its bound and at least its attempts; or the row is gone in a purge.
pub attempt-row :
    (op : Operation) (db : Db) (id : ℕ) (row : JobRecord)
    → IsValid db.jobs
    → row_of id db.jobs ≡ some row
    → Descends (kind_of op) row (row_of id (attempt op db).jobs)
attempt-row op db id row v found =
    row_of-Table (acts_for op) (kind_of op) id row v (attempt-Table op db) found

Descends-frozen :
    (k : CallKind) (old : JobRecord) (o : Option JobRecord)
    → Descends k old o
    → is_terminal_status old.status ≡ true
    → ((k ≡ by_purge) × (o ≡ none)) ⊎ (o ≡ some old)
Descends-frozen k old none d t = inl (d, refl)
Descends-frozen k old (some new) d t = inr (ap some (sym (d.frozen t)))

-- Of a valid table, a job that has succeeded, failed or been cancelled is never changed by any operation:
-- after it, the row is as it was, unless the operation is a purge, which may have removed it.
pub finished_frozen :
    (op : Operation) (db : Db) (id : ℕ) (row : JobRecord)
    → IsValid db.jobs
    → row_of id db.jobs ≡ some row
    → is_terminal_status row.status ≡ true
    → ((kind_of op ≡ by_purge) × (row_of id (attempt op db).jobs ≡ none))
      ⊎ (row_of id (attempt op db).jobs ≡ some row)
finished_frozen op db id row v found t =
    Descends-frozen (kind_of op) row (row_of id (attempt op db).jobs)
      (attempt-row op db id row v found) t

checked-attempts : (row : JobRecord) → row_checks row ≡ true → row.attempts ≤ row.max_attempts
unfolding row_checks
checked-attempts row c = ground arith

-- Of a valid table, no operation takes a job from its organization, changes its bound or takes an
-- attempt back, and the attempts stay within the bound.
pub attempts_kept :
    (op : Operation) (db : Db) (id : ℕ) (row new : JobRecord)
    → IsValid db.jobs
    → row_of id db.jobs ≡ some row
    → row_of id (attempt op db).jobs ≡ some new
    → (new.organization_id ≡ row.organization_id)
      × (new.max_attempts ≡ row.max_attempts)
      × (row.attempts ≤ new.attempts)
      × (new.attempts ≤ new.max_attempts)
attempts_kept op db id row new v found later =
    let line : Lineage row new = rw later at (attempt-row op db id row v found) in
    let w = Table-IsValid (acts_for op) (kind_of op) (attempt-Table op db) v in
    let (member, _) = In-row_of id (attempt op db).jobs new later in
    (
      line.owner,
      line.bound,
      line.counted,
      checked-attempts new
          (All-In (λ r. row_checks r ≡ true) (attempt op db).jobs w.checked new member),
    )
