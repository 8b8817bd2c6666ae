-- ===== src/Jobs/Steps.antt =====
-- An UPDATE of persistence/jobs.py changes the table in one of the ways of `Table`; the children say
-- so of every operation.
pub mod Attempt
pub mod Queue
pub mod Recovery
use mathlib.Core.Path.{subst}
use mervio.Jobs.Machine.{CallKind, permits}
use mervio.Jobs.Trigger.{Written, Written-Governed, update_rows-Written}
use mervio.Jobs.Table.{Table, updated, next, Step, unchanged}
use mervio.Error.{ok, Result, ok-injective}
use mervio.Jobs.Record.{JobRecord}
use mervio.Jobs.Guard.{Instant, Settings, update_rows}
use mervio.Prelude.{ℕ, List, ◌≡◌, true, Bool, arith, Each, Each-map, inl, inr, sym, ap}
use mervio.Jobs.Queue.{commit_row, is_row}
use mervio.Database.{Db, Hook}

pub result-jobs {ℓ} :
    {A : Type ℓ} {a r : A} {m after : Db}
    → ◌≡◌ {A = Result (A × Db)} (ok (a, m)) (ok (r, after))
    → after.jobs ≡ m.jobs
result-jobs {A} h = sym (ap (λ (p : A × Db). p.1.jobs) (ok-injective h))

pub stays :
    (organization : ℕ) (k : CallKind) (rows after : List JobRecord)
    → after ≡ rows
    → Table organization k rows after
stays organization k rows after e = rw e (updated rows rows (unchanged rows))

pub update-Each :
    (organization : ℕ) (k : CallKind) (i : Instant) (s : Settings) (test : JobRecord → Bool)
    (set : JobRecord → JobRecord) (rows : List JobRecord) {after returned : List JobRecord}
    → ((row : JobRecord) → test row ≡ true → row.organization_id ≡ organization)
    → ((row : JobRecord) → test row ≡ true → permits k row.status (set row).status ≡ true)
    → update_rows i s test set rows ≡ ok (after, returned)
    → Each (Step organization k) rows after
update-Each organization k i s test set rows {after} own allowed h =
    Each-map (Written i s test set) (Step organization k)
      (λ old new w. record {
        governed = Written-Governed old new w;
        others = λ ne. elim w [ inl e ↦ e | inr x ↦ absurd (ne (own old x.selected)) ];
        permitted = elim w [
          | inl e ↦ inl e
          | inr x ↦ inr (
              subst (λ (r : JobRecord). permits k old.status r.status ≡ true) (sym x.stamped)
                (allowed old x.selected))
        ];
      })
      rows after (update_rows-Written i s test set rows h)

pub one-update :
    (organization : ℕ) (k : CallKind) (i : Instant) (s : Settings) (test : JobRecord → Bool)
    (set : JobRecord → JobRecord) (rows : List JobRecord) {after returned : List JobRecord}
    → ((row : JobRecord) → test row ≡ true → row.organization_id ≡ organization)
    → ((row : JobRecord) → test row ≡ true → permits k row.status (set row).status ≡ true)
    → update_rows i s test set rows ≡ ok (after, returned)
    → Table organization k rows after
one-update organization k i s test set rows {after} own allowed h = updated rows after (
    next rows rows after (unchanged rows)
      (update-Each organization k i s test set rows own allowed h))

pub commit_row-ok :
    (hook : Hook) (rows : List JobRecord) (row : JobRecord) (db : Db) {r : JobRecord} {after : Db}
    → commit_row hook rows row db ≡ ok (r, after)
    → (r ≡ row) × (after.jobs ≡ rows)
unfolding commit_row
commit_row-ok hook rows row db h = ground arith

pub is_row-owner :
    (organization id : ℕ) (row : JobRecord)
    → is_row organization id row ≡ true
    → row.organization_id ≡ organization
is_row-owner organization id row h = ground arith
