-- ===== src/Jobs/RawWrites.antt =====
-- What the trigger of revision 0006_job_leases allows an UPDATE that does not hold the lease token,
-- whatever its WHERE and its SET are.
use mervio.Jobs.Lineage.{some-eq}
use mervio.Jobs.Returned.{In}
use mathlib.Core.Path.{subst}
use mervio.Jobs.Trigger.{
  Written, update_rows-Written, guard_transition-running, guard_transition-legal,
}
use mervio.Jobs.Token.{lease_token, codes_eq, codes_eq_eq}
use mervio.Error.{ok}
use mervio.Prelude.{
  String, ℕ, ◌≡◌, some, true, ◌≢◌, Option, List, arith, false, ◌⊎◌, none, Bool, opt_eq, str_eq,
  Bool-cases, inl, Each, opt_eq_eq, ◌∙◌, Each-map, str_eq_iff, inr, refl, ap, ◌∷◌, [], sym,
}
use mervio.Jobs.Record.{JobRecord, running, queued, status_eq, failed}
use mervio.Jobs.Guard.{
  Settings, guard_recovery, row_checks, guard_running, holder_of, legal_transition, Instant,
  lock_consistent, is_false, is_some, sql_lt, update_rows,
}

-- The transaction declared no token, or another one than the row's.
abbrev pub Tokenless : Settings → JobRecord → Type 0
Tokenless s row =
    (holder : String)
    → row.locked_by ≡ some holder
    → s.lease_token ≢ some (lease_token row.attempts holder)

-- A write that takes back an expired job: to the queue or to failure, marked as such.
pub record TakesBack (s : Settings) (old new : JobRecord) : Type 0 where
  pub at : ℕ
  pub declared : s.recovery_at ≡ some at
  pub lapsed : sql_lt old.lease_expires_at (some at) ≡ true
  pub ended : (new.status ≡ queued) ⊎ (new.status ≡ failed)
  pub marked : new.last_error_code ≡ some "lease_expired"
  pub counter : new.attempts ≡ old.attempts

locked-holder :
    (row : JobRecord)
    → row_checks row ≡ true
    → row.status ≡ running
    → (is_some row.locked_by ≡ true) × (is_some row.lease_expires_at ≡ true)
unfolding row_checks lock_consistent
locked-holder row c r = ground arith

holder_of-Tokenless :
    (s : Settings) (row : JobRecord)
    → is_some row.locked_by ≡ true
    → Tokenless s row
    → is_false (holder_of s row) ≡ true
unfolding holder_of
holder_of-Tokenless s row l t = go s.lease_token row.locked_by refl refl l
  where
    go :
        (o : Option (List ℕ)) (h : Option String)
        → s.lease_token ≡ o
        → row.locked_by ≡ h
        → is_some h ≡ true
        → is_false (elim o [
          | none ↦ some false
          | some token ↦ elim h [
            | none ↦ none
            | some holder ↦ some (codes_eq token (lease_token row.attempts holder))
          ]
        ])
          ≡ true
    go none h e f g = refl
    go (some token) none e f g = cc g
    go (some token) (some holder) e f g =
        elim (Bool-cases (codes_eq token (lease_token row.attempts holder))) [
          | inl same ↦
              absurd (
                t holder f (e ∙ ap some (codes_eq_eq token (lease_token row.attempts holder) same)))
          | inr differ ↦ rw differ refl
        ]

guard_running-tokenless :
    (i : Instant) (s : Settings) (old new : JobRecord)
    → is_false (holder_of s old) ≡ true
    → guard_running i s old new ≡ ok tt
    → (new.attempts ≡ old.attempts)
      × (status_eq new.status running ≡ false)
      × (guard_recovery s old new ≡ ok tt)
unfolding guard_running
guard_running-tokenless i s old new f h = ground arith

guard_recovery-TakesBack :
    (s : Settings) (old new : JobRecord)
    → is_some old.lease_expires_at ≡ true
    → legal_transition running new.status ≡ true
    → status_eq new.status running ≡ false
    → new.attempts ≡ old.attempts
    → guard_recovery s old new ≡ ok tt
    → TakesBack s old new
unfolding guard_recovery legal_transition
guard_recovery-TakesBack s old new l g ne c h = go s.recovery_at refl
  where
    code : opt_eq str_eq new.last_error_code (some "lease_expired") ≡ true
    code = ground arith

    go : (o : Option ℕ) → s.recovery_at ≡ o → TakesBack s old new
    go none e = cc (rw e at h)
    go (some at) e = record {
      at = at;
      declared = e;
      lapsed = ground (arith, e);
      ended = ground arith;
      marked =
          opt_eq_eq str_eq (λ a b. (str_eq_iff a b).0) new.last_error_code (some "lease_expired")
            code;
      counter = c;
    }

-- Without the row's token a write leaves a running row as it is, or takes it back after its lease has
-- lapsed.
abbrev pub Untouchable : Settings → JobRecord → JobRecord → Type 0
Untouchable s old new =
    old.status ≡ running
    → row_checks old ≡ true
    → Tokenless s old
    → (old ≡ new) ⊎ TakesBack s old new

module _ (i : Instant) (s : Settings) (test : JobRecord → Bool) (set : JobRecord → JobRecord) where
  Written-Untouchable : (old new : JobRecord) → Written i s test set old new → Untouchable s old new
  Written-Untouchable old new (inl e) run checks t = inl e
  Written-Untouchable old new (inr w) run checks t =
      let (l, lease) = locked-holder old checks run in
      let (c, ne, rec) =
        guard_running-tokenless i s old (set old) (holder_of-Tokenless s old l t)
          (guard_transition-running i s old (set old) w.passed run) in
      let back =
        guard_recovery-TakesBack s old (set old) lease
          (subst (λ st. legal_transition st (set old).status ≡ true) run
            (guard_transition-legal i s old (set old) w.passed))
          ne c rec in
      inr (record {
        at = back.at;
        declared = back.declared;
        lapsed = back.lapsed;
        ended = rw w.stamped back.ended;
        marked = rw w.stamped back.marked;
        counter = rw w.stamped back.counter;
      })

  -- Whatever an UPDATE of the table says, it leaves every running row whose token the transaction has
  -- not declared as it is, or it takes it back after its lease: it never completes it.
  pub update_without_token :
      (rows : List JobRecord) {after returned : List JobRecord}
      → update_rows i s test set rows ≡ ok (after, returned)
      → Each (Untouchable s) rows after
  update_without_token rows {after} h =
      Each-map (Written i s test set) (Untouchable s) Written-Untouchable rows after
        (update_rows-Written i s test set rows h)

In-Each :
    (R : JobRecord → JobRecord → Type 0) (rows after : List JobRecord) (row : JobRecord)
    → Each R rows after
    → In row rows
    → (new : JobRecord) × In new after × R row new
In-Each R [] after row e m = absurd m
In-Each R (x ∷ rows) [] row e m = absurd e
In-Each R (x ∷ rows) (y ∷ after) row e (inl here) = (y, inl refl, rw here e.0)
In-Each R (x ∷ rows) (y ∷ after) row e (inr later) =
    let (new, member, r) = In-Each R rows after row e.1 later in (new, inr member, r)

-- Whatever an UPDATE of the table says, a running row whose token `(attempts, locked_by)` the
-- transaction has not declared is still in the table as it was, or it was taken back after its lease
-- had lapsed: to the queue or to failure, marked `lease_expired`, never completed or renewed.
pub running_row_guarded :
    (i : Instant) (s : Settings) (test : JobRecord → Bool) (set : JobRecord → JobRecord)
    (rows : List JobRecord) (row : JobRecord) (holder : String) {after returned : List JobRecord}
    → In row rows
    → row.status ≡ running
    → row_checks row ≡ true
    → row.locked_by ≡ some holder
    → s.lease_token ≢ some (lease_token row.attempts holder)
    → update_rows i s test set rows ≡ ok (after, returned)
    → In row after ⊎ ((new : JobRecord) × In new after × TakesBack s row new)
running_row_guarded i s test set rows row holder {after} member r c l ne h =
    let (new, there, step) =
      In-Each (Untouchable s) rows after row (update_without_token i s test set rows h) member in
    elim (step r c (λ other e t. ne (rw (some-eq (sym l ∙ e)) t))) [
      | inl same ↦ inl (rw same there)
      | inr back ↦ inr (new, there, back)
    ]
