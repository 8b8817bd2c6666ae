-- ===== src/Jobs/Isolation.antt =====
-- An organization's operations leave the rows of every other organization as they are.
use mervio.Jobs.Machine.{CallKind}
use native.Mathlib.Decide.{ℕ_discrete}
use mervio.Jobs.Table.{
  Updates, Table, Removable, Step, updated, unchanged, added, next, removed,
  same_identity-organization,
}
use mervio.Jobs.Record.{JobRecord}
use mervio.Jobs.Recovery.{delete_rows}
use mervio.Prelude.{
  ℕ, List, Bool, select, Each, not, ◌≡◌, ◌∷◌, ◌==◌, Bool-cases, inl, arith, ◌∙◌, inr, refl, [],
}

-- The rows that do not belong to an organization.
abbrev pub foreign : ℕ → List JobRecord → List JobRecord
foreign organization = select (λ row. not (row.organization_id == organization))

module _ (organization : ℕ) (k : CallKind) where
  foreign-Each :
      (rows after : List JobRecord)
      → Each (Step organization k) rows after
      → foreign organization after ≡ foreign organization rows
  foreign-Each [] [] h = refl
  foreign-Each (row ∷ rows) (new ∷ after) h =
      let owner = same_identity-organization row new h.0.governed.kept in
      elim (ℕ_discrete row.organization_id organization) [
        | yes e ↦ ground (arith, foreign-Each rows after h.1)
        | no ne ↦ ground (arith, h.0.others ne, foreign-Each rows after h.1)
      ]
  foreign-Each [] (new ∷ after) h = absurd h
  foreign-Each (row ∷ rows) [] h = absurd h

  foreign-Updates :
      {rows after : List JobRecord}
      → Updates organization k rows after
      → foreign organization after ≡ foreign organization rows
  foreign-Updates (unchanged rows) = refl
  foreign-Updates (next a b c f e) = foreign-Each b c e ∙ foreign-Updates f

  foreign-delete_rows :
      (test : JobRecord → Bool) (rows : List JobRecord)
      → Removable organization test rows
      → foreign organization (delete_rows test rows).0 ≡ foreign organization rows
  unfolding delete_rows
  foreign-delete_rows test [] h = refl
  foreign-delete_rows test (row ∷ rows) h = elim (Bool-cases (test row)) [
    | inl e ↦ ground (arith, e, h.0 e, foreign-delete_rows test rows h.1)
    | inr e ↦ ground (arith, e, foreign-delete_rows test rows h.1)
  ]

  pub foreign-Table :
      {rows after : List JobRecord}
      → Table organization k rows after
      → foreign organization after ≡ foreign organization rows
  foreign-Table (updated rows after u) = foreign-Updates u
  foreign-Table (added new rows l a) = ground (arith, a.owner)
  foreign-Table (removed test rows after l e r) = rw e (foreign-delete_rows test rows r)
