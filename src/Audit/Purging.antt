-- ===== src/Audit/Purging.antt =====
-- What a purge of the audit trail leaves.
use mervio.Jobs.Schedule.{check_limit}
use mervio.Tenancy.{purge_data}
use mervio.Error.{ok, >>=-eq-ok, ok-injective}
use mervio.Prelude.{
  at_head, in_tail, All-take, All-select, Within, List, ℕ, ◌≡◌, Bool, false, ◌&&◌, All, true, ◌∷◌,
  ltb, Bool-cases, ◌==◌, inl, sort_by, ==_iff, select, inr, All-sort_by, [], All-Within, arith,
  Within, ◌+◌, length, ap, Within-select, not, length-select, refl, ◌≢◌, Within-All, sym,
}
use mervio.Database.{Session, Db, open_transaction}
use mervio.Audit.{
  AuditRow, is_own, any_row, expired_events, is_purged, past_floor, older, purge_expired_events,
}

-- The test of a row that a purge may take.
abbrev pub is_takeable : Session → ℕ → ℕ → AuditRow → Bool
is_takeable session now before row =
    is_own session row && (ltb row.created_at before && past_floor now row)

-- The primary key of the table.
abbrev pub UniqueRows : List AuditRow → Type 0
UniqueRows [] = Unit
UniqueRows (row ∷ rows) = All (λ (other : AuditRow). other.id ≢ row.id) rows × UniqueRows rows

same_row :
    (rows : List AuditRow) (a b : AuditRow)
    → UniqueRows rows
    → Within a rows
    → Within b rows
    → a.id ≡ b.id
    → a ≡ b
same_row [] a b u h k e = elim h [ ]
same_row (row ∷ rows) a b u (at_head xs) (at_head ys) e = refl
same_row (row ∷ rows) a b u (at_head xs) (in_tail y ys k) e =
    absurd (Within-All (λ (other : AuditRow). other.id ≢ row.id) rows b u.0 k (sym e))
same_row (row ∷ rows) a b u (in_tail x xs h) (at_head ys) e =
    absurd (Within-All (λ (other : AuditRow). other.id ≢ row.id) rows a u.0 h e)
same_row (row ∷ rows) a b u (in_tail x xs h) (in_tail y ys k) e = same_row rows a b u.1 h k e

any_row-Within :
    (Q : AuditRow → Type 0) (id : ℕ) (chosen : List AuditRow)
    → any_row id chosen ≡ true
    → All Q chosen
    → (c : AuditRow) × Q c × (c.id ≡ id)
any_row-Within Q id [] h a = cc
any_row-Within Q id (c ∷ chosen) h a = elim (Bool-cases (c.id == id)) [
  | inl e ↦ (c, a.0, (==_iff c.id id).0 e)
  | inr e ↦ any_row-Within Q id chosen (rw e at h) a.1
]

true_or_false :
    (own early old chosen : Bool)
    → (own && early) ≡ true
    → (own && (chosen && old)) ≡ true
    → (own && (early && old)) ≡ false
    → ⊥
true_or_false own early old chosen a b c = ground (arith, a, b, c)

chosen_of : (own chosen old : Bool) → (own && (chosen && old)) ≡ true → chosen ≡ true
chosen_of own chosen old h = ground (arith, h)

module _ (session : Session) (now before limit : ℕ) (rows : List AuditRow) where
  Chosen : AuditRow → Type 0
  Chosen row = Within row rows × ((is_own session row && ltb row.created_at before) ≡ true)

  expired_events-Chosen : All Chosen (expired_events session before limit rows)
  unfolding expired_events Chosen
  expired_events-Chosen =
      let test = λ (row : AuditRow). is_own session row && ltb row.created_at before in
      All-take Chosen limit (sort_by older (select test rows)) (
        All-sort_by Chosen older (select test rows) (
          All-select (λ row. Within row rows) test rows
            (All-Within (λ row. Within row rows) rows (λ row h. h))))

  is_purged-takeable :
      UniqueRows rows
      → (row : AuditRow) → Within row rows
      → is_takeable session now before row ≡ false
      → is_purged session now (expired_events session before limit rows) row ≡ false
  unfolding Chosen
  is_purged-takeable u row h safe =
      let chosen = expired_events session before limit rows in
      elim (Bool-cases (is_purged session now chosen row)) [
        | inl p ↦
            let (c, (member, test), same) =
              any_row-Within Chosen row.id chosen
                (chosen_of (is_own session row) (any_row row.id chosen) (past_floor now row) p)
                expired_events-Chosen in
            let e : c ≡ row = same_row rows c row u member h same in
            let old : (is_own session row && ltb row.created_at before) ≡ true = rw e at test in
            absurd (
              true_or_false (is_own session row) (ltb row.created_at before) (past_floor now row)
                (any_row row.id chosen) old p safe)
        | inr p ↦ p
      ]

  -- A purge that returns, of a trail whose identifiers are unique, leaves every event of another
  -- organization, every event that is not older than what was asked for and every event of the last
  -- thirty days, and counts exactly what it took.
  pub purge_expired_events-kept :
      (db : Db) {after : List AuditRow} {n : ℕ}
      → UniqueRows rows
      → purge_expired_events db session now before limit rows ≡ ok (after, n)
      → ((row : AuditRow)
          → Within row rows
          → is_takeable session now before row ≡ false
          → Within row after)
        × (n + length after ≡ length rows)
  unfolding purge_expired_events
  purge_expired_events-kept db u h =
      let (_, _, h1) = >>=-eq-ok (open_transaction db session purge_data) _ h in
      let (_, _, h2) = >>=-eq-ok (check_limit limit) _ h1 in
      let chosen = expired_events session before limit rows in
      rw
        (
          ← ap (λ (p : List AuditRow × ℕ). p.0) (ok-injective h2),
          ← ap (λ (p : List AuditRow × ℕ). p.1) (ok-injective h2),
        )
        (
          (λ row inside safe.
              Within-select (λ r. not (is_purged session now chosen r)) rows row inside
                (rw (is_purged-takeable u row inside safe) refl)),
          length-select (is_purged session now chosen) rows,
        )
