-- ===== src/Jobs/Total.antt =====
-- An UPDATE of one row by its identifier: what it returns and leaves when the write is accepted.
use mathlib.Core.Path.{subst, ap₂}
use mervio.Jobs.Lineage.{row_of, some-eq}
use mervio.Jobs.Queue.{find_row, has_id}
use mervio.Jobs.Table.{UniqueIds}
use mervio.Jobs.Agreement.{stamped_at}
use mervio.Error.{ok}
use mervio.Prelude.{
  Bool, ℕ, List, ◌∷◌, All, ◌≡◌, if◌then◌else◌, true, Bool-cases, ◌≢◌, [], inl, inr, some, refl, sym,
  ==_iff,
}
use mervio.Jobs.Record.{JobRecord}
use mervio.Jobs.Guard.{Instant, update_rows, Settings, write_row}

module _ (i : Instant) (test : JobRecord → Bool) (set : JobRecord → JobRecord) where
  -- The table after the UPDATE, and the rows that RETURNING gives.
  abbrev pub rewritten : List JobRecord → List JobRecord
  rewritten [] = []
  rewritten (row ∷ rows) = (if test row then stamped_at i (set row) else row) ∷ rewritten rows

  abbrev pub given_back : List JobRecord → List JobRecord
  given_back [] = []
  given_back (row ∷ rows) =
      let rest = given_back rows in if test row then stamped_at i (set row) ∷ rest else rest

  abbrev Accepts : Settings → JobRecord → Type 0
  Accepts s row = test row ≡ true → write_row i s row (set row) ≡ ok (stamped_at i (set row))

  update_rows-total :
      (s : Settings) (rows : List JobRecord)
      → All (Accepts s) rows
      → update_rows i s test set rows ≡ ok (rewritten rows, given_back rows)
  unfolding update_rows
  update_rows-total s [] h = refl
  update_rows-total s (row ∷ rows) h = elim (Bool-cases (test row)) [
    | inl t ↦ rw (update_rows-total s rows h.1, t, h.0 t) refl
    | inr f ↦ rw (update_rows-total s rows h.1, f) refl
  ]

  module _ (id : ℕ) (by_id : (row : JobRecord) → test row ≡ true → row.id ≡ id) where
    nothing_given :
        (rows : List JobRecord) → All (λ (r : JobRecord). r.id ≢ id) rows → given_back rows ≡ []
    nothing_given [] h = refl
    nothing_given (row ∷ rows) h = elim (Bool-cases (test row)) [
      | inl t ↦ absurd (h.0 (by_id row t))
      | inr f ↦ rw f (nothing_given rows h.1)
    ]

    nothing-Accepts :
        (s : Settings) (rows : List JobRecord)
        → All (λ (r : JobRecord). r.id ≢ id) rows
        → All (Accepts s) rows
    nothing-Accepts s [] h = tt
    nothing-Accepts s (row ∷ rows) h =
        ((λ t. absurd (h.0 (by_id row t))), nothing-Accepts s rows h.1)

    one_given :
        (rows : List JobRecord) (row : JobRecord)
        → UniqueIds rows
        → row_of id rows ≡ some row
        → test row ≡ true
        → given_back rows ≡ stamped_at i (set row) ∷ []
    unfolding find_row
    one_given [] row u h t = absurd (cc h)
    one_given (other ∷ rows) row u h t = elim (Bool-cases (has_id id other)) [
      | inl same ↦
          let e : other ≡ row = some-eq (rw same at h) in
          rw (subst (λ r. test r ≡ true) (sym e) t) (
            ap₂ (λ (a : JobRecord) (l : List JobRecord). stamped_at i (set a) ∷ l) e
              (nothing_given rows (rw ((==_iff other.id id).0 same) at u.0)))
      | inr differ ↦ elim (Bool-cases (test other)) [
        | inl t' ↦ cc (differ, (==_iff other.id id).1 (by_id other t'))
        | inr f ↦ rw f (one_given rows row u.1 (rw differ at h) t)
      ]
    ]

    one-Accepts :
        (s : Settings) (rows : List JobRecord) (row : JobRecord)
        → UniqueIds rows
        → row_of id rows ≡ some row
        → write_row i s row (set row) ≡ ok (stamped_at i (set row))
        → All (Accepts s) rows
    unfolding find_row
    one-Accepts s [] row u h w = tt
    one-Accepts s (other ∷ rows) row u h w = elim (Bool-cases (has_id id other)) [
      | inl same ↦
          let e : other ≡ row = some-eq (rw same at h) in
          (
            (λ _. subst (λ r. write_row i s r (set r) ≡ ok (stamped_at i (set r))) (sym e) w),
            nothing-Accepts s rows (rw ((==_iff other.id id).0 same) at u.0),
          )
      | inr differ ↦ (
        (λ t'. cc (differ, (==_iff other.id id).1 (by_id other t'))),
        one-Accepts s rows row u.1 (rw differ at h) w,
      )
    ]

    -- The row that is written is the one that the identifier finds after it.
    pub one_found :
        (rows : List JobRecord) (row : JobRecord)
        → row_of id rows ≡ some row
        → test row ≡ true
        → (set row).id ≡ id
        → row_of id (rewritten rows) ≡ some (stamped_at i (set row))
    unfolding find_row
    one_found [] row h t k = absurd (cc h)
    one_found (other ∷ rows) row h t k = elim (Bool-cases (has_id id other)) [
      | inl same ↦
          let e : other ≡ row = some-eq (rw same at h) in
          rw (e, t, (==_iff (set row).id id).1 k) refl
      | inr differ ↦ elim (Bool-cases (test other)) [
        | inl t' ↦ cc (differ, (==_iff other.id id).1 (by_id other t'))
        | inr f ↦ rw (f, differ) (one_found rows row (rw differ at h) t k)
      ]
    ]

    -- The UPDATE of the one row that an identifier finds.
    pub update_one :
        (s : Settings) (rows : List JobRecord) (row : JobRecord)
        → UniqueIds rows
        → row_of id rows ≡ some row
        → test row ≡ true
        → write_row i s row (set row) ≡ ok (stamped_at i (set row))
        → update_rows i s test set rows ≡ ok (rewritten rows, stamped_at i (set row) ∷ [])
    update_one s rows row u h t w =
        rw (update_rows-total s rows (one-Accepts s rows row u h w), one_given rows row u h t) refl
