-- ===== src/Jobs/Steps/Recovery.antt =====
-- Recovery and purge, as changes of the table.
use mervio.Jobs.Machine.{permits, by_recovery, by_purge}
use mervio.Jobs.Recovery.{recovered_row, exhausted_row}
use mervio.Prelude.{if-elim, ltb, refl}
use mervio.Tenancy.{run_jobs, purge_data}
use mervio.Jobs.Schedule.{check_limit}
use mervio.Error.{ok, >>=-eq-ok, guard, value_error}
use mervio.Jobs.Steps.{is_row-owner, result-jobs, update-Each, commit_row-ok}
use mervio.Jobs.Queue.{is_row, coalesce, commit_row}
use mervio.Jobs.Table.{Removable, Updates, unchanged, next, Table, updated, removed}
use mervio.Jobs.Recovery.{
  purge_terminal_jobs, recover_stale_jobs, may_delete, recover_returned, recover_each, recover_one,
  is_expired, any_id, is_empty, all_terminal, taken_back,
}
use mervio.Jobs.Record.{JobRecord, JobStatus, is_terminal_status}
use mervio.Jobs.Guard.{Instant, update_rows}
use mervio.Database.{Session, Hook, organization_of, Db, open_transaction}
use mervio.Prelude.{
  ℕ, List, ◌≡◌, ◌&&◌, true, Bool, Option, ◌==◌, &&-both, ◌∷◌, [], ==_iff, not, none, some, inl, inr,
  ◌⊎◌, ◌∙◌,
}

is_expired-owner :
    (organization id at : ℕ) (row : JobRecord)
    → (is_row organization id row && is_expired organization at row) ≡ true
    → row.organization_id ≡ organization
is_expired-owner organization id at row h = is_row-owner organization id row (&&-both _ _ h).0

taken_back-permitted :
    (i : Instant) (at : ℕ) (selected row : JobRecord)
    → permits by_recovery row.status (taken_back i at selected row).status ≡ true
unfolding taken_back recovered_row exhausted_row
taken_back-permitted i at selected row =
    if-elim (λ (new : JobRecord). permits by_recovery row.status new.status ≡ true)
      (ltb selected.attempts selected.max_attempts) (λ e. refl) (λ e. refl)

Updates-append :
    (organization : ℕ) {a b c : List JobRecord}
    → Updates organization by_recovery a b
    → Updates organization by_recovery b c
    → Updates organization by_recovery a c
Updates-append organization f (unchanged rows) = f
Updates-append organization f (next a b c g e) = next _ b c (Updates-append organization f g) e

unchanged_by :
    (organization : ℕ) (rows after : List JobRecord)
    → after ≡ rows
    → Updates organization by_recovery rows after
unchanged_by organization rows after e = rw e (unchanged rows)

module _ (organization : ℕ) (i : Instant) (hook : Hook) (at : ℕ) where
  recover_returned-jobs :
      (rows returned : List JobRecord) (db : Db) {r : List JobRecord} {after : Db}
      → recover_returned hook rows returned db ≡ ok (r, after)
      → (after.jobs ≡ rows) ⊎ (after.jobs ≡ db.jobs)
  unfolding recover_returned
  recover_returned-jobs rows [] db h = inr (result-jobs h)
  recover_returned-jobs rows (row ∷ rest) db h =
      let ((recovered, mid), done, e) = >>=-eq-ok (commit_row hook rows row db) _ h in
      inl (result-jobs e ∙ (commit_row-ok hook rows row db done).1)

  recover_one-Updates :
      (selected : JobRecord) (db : Db) {r : List JobRecord} {after : Db}
      → recover_one organization i hook at selected db ≡ ok (r, after)
      → Updates organization by_recovery db.jobs after.jobs
  unfolding recover_one
  recover_one-Updates selected db {after = after} h =
      let ((rows, returned), wrote, rest) =
        >>=-eq-ok
          (update_rows i (record { lease_token = none; recovery_at = some at })
            (λ row. is_row organization selected.id row && is_expired organization at row)
            (taken_back i at selected) db.jobs)
          _ h in
      elim (recover_returned-jobs rows returned db rest) [
        | inl e ↦ rw e (
            next db.jobs db.jobs rows (unchanged db.jobs) (
              update-Each organization by_recovery i
                (record { lease_token = none; recovery_at = some at })
                (λ row. is_row organization selected.id row && is_expired organization at row)
                (taken_back i at selected) db.jobs (is_expired-owner organization selected.id at)
                (λ row t. taken_back-permitted i at selected row) wrote))
        | inr e ↦ unchanged_by organization db.jobs after.jobs e
      ]

  recover_each-Updates :
      (selected : List JobRecord) (db : Db) {r : List JobRecord} {after : Db}
      → recover_each organization i hook at selected db ≡ ok (r, after)
      → Updates organization by_recovery db.jobs after.jobs
  unfolding recover_each
  recover_each-Updates [] db {after = after} h =
      unchanged_by organization db.jobs after.jobs (result-jobs h)
  recover_each-Updates (job ∷ rest) db {after = after} h =
      let ((first, mid), one, h1) = >>=-eq-ok (recover_one organization i hook at job db) _ h in
      let ((others, last), more, h2) =
        >>=-eq-ok (recover_each organization i hook at rest mid) _ h1 in
      rw (result-jobs h2) (
        Updates-append organization (recover_one-Updates job db one)
          (recover_each-Updates rest mid more))

module _ (session : Session) (i : Instant) where
  pub recover_stale_jobs-Table :
      (locked : ℕ → Bool) (hook : Hook) (now : Option ℕ) (limit : ℕ) (db : Db) {r : List JobRecord}
      {after : Db}
      → recover_stale_jobs locked session i hook now limit db ≡ ok (r, after)
      → Table (organization_of session) by_recovery db.jobs after.jobs
  unfolding recover_stale_jobs
  recover_stale_jobs-Table locked hook now limit db {after = after} h =
      let (_, _, h1) = >>=-eq-ok (check_limit limit) _ h in
      let (_, _, h2) = >>=-eq-ok (open_transaction db session run_jobs) _ h1 in
      updated db.jobs after.jobs
        (recover_each-Updates (organization_of session) i hook (coalesce now i.now) _ db h2)

  may_delete-terminal :
      (row : JobRecord) → may_delete i row ≡ true → is_terminal_status row.status ≡ true
  unfolding may_delete
  may_delete-terminal row h = (&&-both _ _ h).0

  purge-Removable :
      (chosen rows : List JobRecord)
      → Removable
          (organization_of session)
          (λ row.
            row.organization_id == organization_of session
            && (any_id row.id chosen && may_delete i row))
          rows
  purge-Removable chosen [] = tt
  purge-Removable chosen (row ∷ rows) = (
    (λ h.
        let (own, rest) = &&-both _ _ h in
        (
          (==_iff row.organization_id (organization_of session)).0 own,
          may_delete-terminal row (&&-both _ _ rest).1,
        )),
    purge-Removable chosen rows,
  )

  pub purge_terminal_jobs-Table :
      (before : ℕ) (statuses : List JobStatus) (limit : ℕ) (db : Db) {r : ℕ} {after : Db}
      → purge_terminal_jobs session i before statuses limit db ≡ ok (r, after)
      → Table (organization_of session) by_purge db.jobs after.jobs
  unfolding purge_terminal_jobs
  purge_terminal_jobs-Table before statuses limit db {after = after} h =
      let (_, _, h1) =
        >>=-eq-ok (guard (not (is_empty statuses) && all_terminal statuses) value_error) _ h in
      let (_, _, h2) = >>=-eq-ok (open_transaction db session purge_data) _ h1 in
      let (_, _, h3) = >>=-eq-ok (check_limit limit) _ h2 in
      removed _ db.jobs after.jobs refl (result-jobs h3) (purge-Removable _ db.jobs)
