-- ===== src/Jobs/Cancelling.antt =====
-- The cancellation of a job that may not be cancelled (`cancel_job` of persistence/jobs.py).
use mervio.Jobs.Refusals.{update_rows-none}
use mervio.Prelude.{if◌then◌else◌}
use mervio.Jobs.Table.{UniqueIds}
use mervio.Tenancy.{run_jobs}
use mervio.Jobs.Lineage.{some-eq, row_of}
use mervio.Error.{Error, ok, not_found, err, job_state_error}
use mervio.Jobs.Record.{
  JobRecord, status_eq, running, queued, JobStatus, succeeded, failed, cancelled,
}
use mervio.Prelude.{
  ℕ, ◌≡◌, true, List, All, some, ◌∷◌, false, Bool-cases, none, [], inl, arith, refl, inr, ◌==◌,
  All-map, ◌≢◌, if◌then◌else◌, ◌⊎◌, ==_iff,
}
use mervio.Jobs.Guard.{Instant}
use mervio.Jobs.Queue.{
  find_row, is_row, fetch_job, cancel_job, cancel_returned, is_queued_row, no_settings,
  cancelled_row, has_id,
}
use mervio.Database.{Session, Db, organization_of, Hook, open_transaction}

waits : (s : JobStatus) → status_eq s queued ≡ true → s ≡ queued
waits queued h = refl
waits running h = cc
waits succeeded h = cc
waits failed h = cc
waits cancelled h = cc

-- The row that an identifier finds is all that a statement on it can select.
none_queued :
    (organization id : ℕ) (rows : List JobRecord) (row : JobRecord)
    → UniqueIds rows
    → row_of id rows ≡ some row
    → (row.status ≢ queued) ⊎ (row.organization_id ≢ organization)
    → All (λ r. is_queued_row organization id r ≡ false) rows
unfolding find_row
none_queued organization id [] row u h n = tt
none_queued organization id (other ∷ rows) row u h n = elim (Bool-cases (has_id id other)) [
  | inl t ↦
      let e : other ≡ row = some-eq (rw t at h) in
      let away : All (λ (r : JobRecord). r.id ≢ id) rows = rw ((==_iff other.id id).0 t) at u.0 in
      (
        rw e (not_selected row n),
        All-map (λ (r : JobRecord). r.id ≢ id) (λ r. is_queued_row organization id r ≡ false)
            (λ r ne. elsewhere r ne) rows away,
      )
  | inr f ↦ (
    elsewhere other (λ e. cc (f, (==_iff other.id id).1 e)),
    none_queued organization id rows row u.1 (rw f at h) n,
  )
]
  where
    elsewhere : (r : JobRecord) → r.id ≢ id → is_queued_row organization id r ≡ false
    elsewhere r ne = ground (arith, ne)

    not_selected :
        (r : JobRecord)
        → (r.status ≢ queued) ⊎ (r.organization_id ≢ organization)
        → is_queued_row organization id r ≡ false
    not_selected r (inl q) = elim (Bool-cases (status_eq r.status queued)) [
      | inl t ↦ absurd (q (waits r.status t))
      | inr f ↦ ground (arith, f)
    ]
    not_selected r (inr o) = ground (arith, o)

none_own :
    (organization id : ℕ) (rows : List JobRecord)
    → All (λ (r : JobRecord). r.id ≢ id) rows
    → find_row (is_row organization id) rows ≡ none
unfolding find_row
none_own organization id [] h = refl
none_own organization id (r ∷ rows) h =
    let away : is_row organization id r ≡ false = ground (arith, h.0) in
    rw away (none_own organization id rows h.1)

-- What a session finds by an identifier: the row, if it is of its organization.
find_own :
    (organization id : ℕ) (rows : List JobRecord) (row : JobRecord)
    → UniqueIds rows
    → row_of id rows ≡ some row
    → find_row (is_row organization id) rows
      ≡ (if row.organization_id == organization then some row else none)
unfolding find_row
find_own organization id [] row u h = absurd (cc h)
find_own organization id (other ∷ rows) row u h = elim (Bool-cases (has_id id other)) [
  | inl t ↦
      let e : other ≡ row = some-eq (rw t at h) in
      elim (Bool-cases (other.organization_id == organization)) [
        | inl own ↦ rw (t, own, ← e, own) refl
        | inr foreign ↦
            rw (t, foreign, ← e, foreign)
              (none_own organization id rows (rw ((==_iff other.id id).0 t) at u.0))
      ]
  | inr f ↦ rw f (find_own organization id rows row u.1 (rw f at h))
]

module _ (session : Session) (i : Instant) (hook : Hook) (id : ℕ) (db : Db) where
  -- What is raised for a job that is there.
  abbrev pub refused_as : JobRecord → Error
  refused_as row =
      if row.organization_id == organization_of session then job_state_error else not_found "job"

  cancel_returned-refused :
      (row : JobRecord)
      → UniqueIds db.jobs
      → row_of id db.jobs ≡ some row
      → cancel_returned session hook id db.jobs [] db ≡ err (refused_as row)
  unfolding cancel_returned fetch_job
  cancel_returned-refused row u h =
      elim (Bool-cases (row.organization_id == organization_of session)) [
        | inl own ↦
            rw
              (
                cancel_returned,
                fetch_job,
                find_own (organization_of session) id db.jobs row u h,
                own,
              )
              refl
        | inr foreign ↦
            rw
              (
                cancel_returned,
                fetch_job,
                find_own (organization_of session) id db.jobs row u h,
                foreign,
              )
              refl
      ]

  -- In a table without two rows of one identifier, by a session that may run jobs, the cancellation of a
  -- job that is running or finished, or that another organization has, raises exactly one error: a
  -- refused transition for a job of the session's organization, and not found for one of another.
  pub cancel_job_refused :
      (row : JobRecord)
      → open_transaction db session run_jobs ≡ ok tt
      → UniqueIds db.jobs
      → row_of id db.jobs ≡ some row
      → (row.status ≢ queued) ⊎ (row.organization_id ≢ organization_of session)
      → cancel_job session i hook id db ≡ err (refused_as row)
  unfolding cancel_job
  cancel_job_refused row may u h n =
      rw
        (
          may,
          update_rows-none i no_settings (is_queued_row (organization_of session) id)
              (cancelled_row i) db.jobs
              (none_queued (organization_of session) id db.jobs row u h n),
          cancel_returned-refused row u h,
        )
        refl
