-- ===== src/Jobs/Returned.antt =====
-- The rows that an UPDATE returns: each was written from one row of the table that passed the test.
use mathlib.Core.Path.{subst}
use mervio.Error.{ok, ok-injective, >>=-eq-ok}
use mervio.Jobs.Lineage.{row_of, some-eq}
use mervio.Jobs.Table.{UniqueIds}
use mervio.Prelude.{
  ℕ, List, Bool, All, ◌∷◌, ◌≡◌, inr, ◌≢◌, some, inl, true, ◌⊎◌, [], Bool-cases, ap, ==_refl, sym,
  All-map, ==_iff, refl,
}
use mervio.Jobs.Guard.{Instant, Settings, update_rows, write_row}
use mervio.Jobs.Record.{JobRecord}
use mervio.Jobs.Queue.{find_row, has_id}

abbrev pub In : JobRecord → List JobRecord → Type 0
In row [] = ⊥
In row (other ∷ rows) = (row ≡ other) ⊎ In row rows

pub record Source (i : Instant) (s : Settings) (test : JobRecord → Bool)
    (set : JobRecord → JobRecord) (rows : List JobRecord) (new : JobRecord) : Type 0 where
  pub old : JobRecord
  pub member : In old rows
  pub selected : test old ≡ true
  pub wrote : write_row i s old (set old) ≡ ok new

module _ (i : Instant) (s : Settings) (test : JobRecord → Bool) (set : JobRecord → JobRecord) where
  weaken :
      (row : JobRecord) (rows : List JobRecord) (new : JobRecord)
      → Source i s test set rows new
      → Source i s test set (row ∷ rows) new
  weaken row rows new x = record {
    old = x.old;
    member = inr x.member;
    selected = x.selected;
    wrote = x.wrote;
  }

  pub update_rows-Source :
      (rows : List JobRecord) {after returned : List JobRecord}
      → update_rows i s test set rows ≡ ok (after, returned)
      → All (Source i s test set rows) returned
  unfolding update_rows
  update_rows-Source [] h =
      rw (← ap (λ (p : List JobRecord × List JobRecord). p.1) (ok-injective h)) tt
  update_rows-Source (row ∷ rows) {after} {returned} h =
      let ((rest, out), done, next) = >>=-eq-ok (update_rows i s test set rows) _ h in
      let ih : All (Source i s test set (row ∷ rows)) out =
        All-map (Source i s test set rows) (Source i s test set (row ∷ rows)) (weaken row rows) out
          (update_rows-Source rows done) in
      elim (Bool-cases (test row)) [
        | inl t ↦
            let (new, wrote, e) = >>=-eq-ok (write_row i s row (set row)) _ (rw t at next) in
            rw (← ap (λ (p : List JobRecord × List JobRecord). p.1) (ok-injective e))
              (record { old = row; member = inl refl; selected = t; wrote = wrote }, ih)
        | inr f ↦
            rw (← ap (λ (p : List JobRecord × List JobRecord). p.1) (ok-injective (rw f at next)))
              ih
      ]

id-absent :
    (row : JobRecord) (id : ℕ) (rows : List JobRecord)
    → All (λ (r : JobRecord). r.id ≢ id) rows
    → In row rows
    → row.id ≢ id
id-absent row id [] h m = absurd m
id-absent row id (other ∷ rows) h (inl e) = rw e h.0
id-absent row id (other ∷ rows) h (inr m) = id-absent row id rows h.1 m

-- The primary key: a row of the table is the one that its identifier finds.
pub row_of-In :
    (row : JobRecord) (rows : List JobRecord)
    → UniqueIds rows
    → In row rows
    → row_of row.id rows ≡ some row
unfolding find_row
row_of-In row [] u m = absurd m
row_of-In row (other ∷ rows) u (inl e) = rw (← e, ==_refl row.id) refl
row_of-In row (other ∷ rows) u (inr m) = elim (Bool-cases (has_id row.id other)) [
  | inl t ↦ absurd (id-absent row other.id rows u.0 m (sym ((==_iff other.id row.id).0 t)))
  | inr f ↦ rw f (row_of-In row rows u.1 m)
]

pub In-row_of :
    (id : ℕ) (rows : List JobRecord) (row : JobRecord)
    → row_of id rows ≡ some row
    → In row rows × (row.id ≡ id)
unfolding find_row
In-row_of id [] row h = absurd (cc h)
In-row_of id (other ∷ rows) row h = elim (Bool-cases (has_id id other)) [
  | inl t ↦ let e = some-eq (rw t at h) in (inl (sym e), rw (← e) ((==_iff other.id id).0 t))
  | inr f ↦ let (m, e) = In-row_of id rows row (rw f at h) in (inr m, e)
]

pub All-In :
    (P : JobRecord → Type 0) (rows : List JobRecord)
    → All P rows
    → (row : JobRecord) → In row rows
    → P row
All-In P [] h row m = absurd m
All-In P (other ∷ rows) h row (inl e) = subst P (sym e) h.0
All-In P (other ∷ rows) h row (inr m) = All-In P rows h.1 row m

module _ (i : Instant) (s : Settings) (test : JobRecord → Bool) (set : JobRecord → JobRecord) where
  -- What RETURNING gives stands in the table.
  pub update_rows-In :
      (rows : List JobRecord) {after returned : List JobRecord}
      → update_rows i s test set rows ≡ ok (after, returned)
      → All (λ row. In row after) returned
  unfolding update_rows
  update_rows-In [] h = rw (← ap (λ (p : List JobRecord × List JobRecord). p.1) (ok-injective h)) tt
  update_rows-In (row ∷ rows) {after} {returned} h =
      let ((rest, out), done, next) = >>=-eq-ok (update_rows i s test set rows) _ h in
      let ih = update_rows-In rows done in
      elim (Bool-cases (test row)) [
        | inl t ↦
            let (new, wrote, e) = >>=-eq-ok (write_row i s row (set row)) _ (rw t at next) in
            subst (λ (p : List JobRecord × List JobRecord). All (λ r. In r p.0) p.1)
              (ok-injective e)
              (inl refl, All-map (λ r. In r rest) (λ r. In r (new ∷ rest)) (λ r m. inr m) out ih)
        | inr f ↦
            subst (λ (p : List JobRecord × List JobRecord). All (λ r. In r p.0) p.1)
              (ok-injective (rw f at next))
              (All-map (λ r. In r rest) (λ r. In r (row ∷ rest)) (λ r m. inr m) out ih)
      ]
