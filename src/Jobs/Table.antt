-- ===== src/Jobs/Table.antt =====
-- How the operations of persistence/jobs.py change the table of jobs, on behalf of one organization.
use mervio.Jobs.Machine.{CallKind, permits, by_enqueue, by_purge}
use mervio.Prelude.{◌⊎◌}
use mervio.Jobs.Trigger.{Governed}
use mervio.Jobs.Recovery.{delete_rows}
use mervio.Jobs.Record.{JobRecord, queued, is_terminal_status}
use mervio.Prelude.{
  ℕ, List, ◌∷◌, All-Each, All, Bool, ◌≡◌, Each, ◌≢◌, true, Bool-cases, [], arith, inl, inr,
}
use mervio.Jobs.Guard.{same_identity, row_checks}

-- One row through an accepted UPDATE that an organization makes in a call of one kind.
pub record Step (organization : ℕ) (k : CallKind) (old new : JobRecord) : Type 0 where
  pub governed : Governed old new
  pub others : old.organization_id ≢ organization → old ≡ new
  pub permitted : (old ≡ new) ⊎ (permits k old.status new.status ≡ true)

-- A row that an INSERT may add, and a row that a DELETE may take.
pub record Added (organization : ℕ) (new : JobRecord) (rows : List JobRecord) : Type 0 where
  pub owner : new.organization_id ≡ organization
  pub waiting : new.status ≡ queued
  pub unused : new.attempts ≡ 0
  pub checked : row_checks new ≡ true
  pub fresh : All (λ (row : JobRecord). row.id ≢ new.id) rows

abbrev pub Removable : ℕ → (JobRecord → Bool) → List JobRecord → Type 0
Removable organization test = All (λ row.
    test row ≡ true → (row.organization_id ≡ organization) × (is_terminal_status row.status ≡ true))

-- UPDATEs one after another.
pub data Updates (organization : ℕ) (k : CallKind) : List JobRecord → List JobRecord → Type 0 where
  unchanged : (rows : List JobRecord) → Updates organization k rows rows
  next :
      (a b c : List JobRecord)
      → Updates organization k a b
      → Each (Step organization k) b c
      → Updates organization k a c

-- What one operation does to the table.
pub data Table (organization : ℕ) (k : CallKind) : List JobRecord → List JobRecord → Type 0 where
  updated :
      (rows after : List JobRecord)
      → Updates organization k rows after
      → Table organization k rows after
  added :
      (new : JobRecord) (rows : List JobRecord)
      → k ≡ by_enqueue
      → Added organization new rows
      → Table organization k rows (new ∷ rows)
  removed :
      (test : JobRecord → Bool) (rows after : List JobRecord)
      → k ≡ by_purge
      → after ≡ (delete_rows test rows).0
      → Removable organization test rows
      → Table organization k rows after

pub same_identity-id : (old new : JobRecord) → same_identity old new ≡ true → new.id ≡ old.id
unfolding same_identity
same_identity-id old new h = ground arith

pub same_identity-organization :
    (old new : JobRecord) → same_identity old new ≡ true → new.organization_id ≡ old.organization_id
unfolding same_identity
same_identity-organization old new h = ground arith

pub same_identity-max_attempts :
    (old new : JobRecord) → same_identity old new ≡ true → new.max_attempts ≡ old.max_attempts
unfolding same_identity
same_identity-max_attempts old new h = ground arith

-- The primary key: no two rows have one identifier.
abbrev pub UniqueIds : List JobRecord → Type 0
UniqueIds [] = Unit
UniqueIds (row ∷ rows) = All (λ (other : JobRecord). other.id ≢ row.id) rows × UniqueIds rows

-- What the constraints of the table give: every row passes its checks and no identifier stands twice.
pub record IsValid (rows : List JobRecord) : Type 0 where
  pub checked : All (λ row. row_checks row ≡ true) rows
  pub unique : UniqueIds rows

pub All-delete_rows :
    (P : JobRecord → Type 0) (test : JobRecord → Bool) (rows : List JobRecord)
    → All P rows
    → All P (delete_rows test rows).0
unfolding delete_rows
All-delete_rows P test [] h = tt
All-delete_rows P test (row ∷ rows) h = elim (Bool-cases (test row)) [
  | inl e ↦ rw e (All-delete_rows P test rows h.1)
  | inr e ↦ rw e (h.0, All-delete_rows P test rows h.1)
]

unique-delete_rows :
    (test : JobRecord → Bool) (rows : List JobRecord)
    → UniqueIds rows
    → UniqueIds (delete_rows test rows).0
unfolding delete_rows
unique-delete_rows test [] h = tt
unique-delete_rows test (row ∷ rows) h = elim (Bool-cases (test row)) [
  | inl e ↦ rw e (unique-delete_rows test rows h.1)
  | inr e ↦
      rw e (
        All-delete_rows (λ other. other.id ≢ row.id) test rows h.0,
        unique-delete_rows test rows h.1,
      )
]

module _ (organization : ℕ) (k : CallKind) where
  ids-Each :
      (id : ℕ) (rows after : List JobRecord)
      → Each (Step organization k) rows after
      → All (λ (row : JobRecord). row.id ≢ id) rows
      → All (λ (row : JobRecord). row.id ≢ id) after
  ids-Each id =
      All-Each (Step organization k) (λ row. row.id ≢ id)
        (λ x y st ne e. ne (cc (same_identity-id x y st.governed.kept, e)))

  unique-Each :
      (rows after : List JobRecord)
      → Each (Step organization k) rows after
      → UniqueIds rows
      → UniqueIds after
  unique-Each [] [] h u = tt
  unique-Each (row ∷ rows) (new ∷ after) h u = (
    rw (same_identity-id row new h.0.governed.kept) (ids-Each row.id rows after h.1 u.0),
    unique-Each rows after h.1 u.1,
  )
  unique-Each [] (new ∷ after) h u = absurd h
  unique-Each (row ∷ rows) [] h u = absurd h

  pub Updates-IsValid :
      {rows after : List JobRecord}
      → Updates organization k rows after
      → IsValid rows
      → IsValid after
  Updates-IsValid (unchanged rows) v = v
  Updates-IsValid (next a b c f e) v =
      let w = Updates-IsValid f v in
      record {
        checked =
            All-Each (Step organization k) (λ row. row_checks row ≡ true)
              (λ x y st k. st.governed.checked k) b c e w.checked;
        unique = unique-Each b c e w.unique;
      }

  -- Whatever an operation does to the table, it stays valid.
  pub Table-IsValid :
      {rows after : List JobRecord} → Table organization k rows after → IsValid rows → IsValid after
  Table-IsValid (updated rows after u) v = Updates-IsValid u v
  Table-IsValid (added new rows l a) v = record {
    checked = (a.checked, v.checked);
    unique = (a.fresh, v.unique);
  }
  Table-IsValid (removed test rows after l e r) v = rw e (record {
    checked = All-delete_rows (λ row. row_checks row ≡ true) test rows v.checked;
    unique = unique-delete_rows test rows v.unique;
  })
