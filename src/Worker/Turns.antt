-- ===== src/Worker/Turns.antt =====
-- A claim of a dispatched worker that finds no job.
use mathlib.Core.Path.{subst}
use mervio.Tenancy.{run_jobs}
use mervio.Jobs.Schedule.{check_lease_seconds}
use mervio.Error.{ok, Result, >>=-eq-ok, err, ok-injective}
use mervio.Dispatch.{Dispatcher, next_organizations}
use mervio.Jobs.Record.{JobRecord}
use mervio.Worker.Rotation.{
  claim_dispatched, try_pending, claim_in, Rotation, session_for, claimed_for, Found, is_denied,
}
use mervio.Jobs.Guard.{Instant, update_rows}
use mervio.Database.{Hook, Session, Db, open_transaction, organization_of}
use mervio.Prelude.{
  ℕ, Bool, List, Option, ◌≡◌, none, sym, [], ap, some, ◌∷◌, Option-cases, inl, ◌∙◌, inr, ◌⊎◌,
  Bool-cases, All,
}
use mervio.Jobs.Queue.{
  claim_next_job, claim_returned, claim_candidate, Claim, check_worker_id, commit_row, no_settings,
  is_row, claimed_row,
}

claim_returned-none :
    (hook : Hook) (rows returned : List JobRecord) (db : Db) {after : Db}
    → claim_returned hook rows returned db ≡ ok (none, after)
    → after ≡ db
unfolding claim_returned
claim_returned-none hook rows [] db h =
    sym (ap (λ (p : Option JobRecord × Db). p.1) (ok-injective h))
claim_returned-none hook rows (row ∷ rest) db h =
    let ((claimed, mid), done, e) = >>=-eq-ok (commit_row hook rows row db) _ h in
    cc (ap (λ (p : Option JobRecord × Db). p.0) (ok-injective e))

claim_candidate-none :
    (organization : ℕ) (i : Instant) (hook : Hook) (claim : Claim) (o : Option JobRecord) (db : Db)
    {after : Db}
    → claim_candidate organization i hook claim o db ≡ ok (none, after)
    → after ≡ db
unfolding claim_candidate
claim_candidate-none organization i hook claim none db h =
    sym (ap (λ (p : Option JobRecord × Db). p.1) (ok-injective h))
claim_candidate-none organization i hook claim (some chosen) db h =
    let ((rows, returned), _, rest) =
      >>=-eq-ok
        (update_rows i no_settings (is_row organization chosen.id) (claimed_row i claim) db.jobs) _
        h in
    claim_returned-none hook rows returned db rest

claim_next_job-none :
    (locked : ℕ → Bool) (session : Session) (i : Instant) (hook : Hook) (claim : Claim) (db : Db)
    {after : Db}
    → claim_next_job locked session i hook claim db ≡ ok (none, after)
    → after ≡ db
unfolding claim_next_job
claim_next_job-none locked session i hook claim db h =
    let (_, _, h1) = >>=-eq-ok (check_worker_id claim.worker_id) _ h in
    let (_, _, h2) = >>=-eq-ok (check_lease_seconds claim.lease_seconds) _ h1 in
    let (_, _, h3) = >>=-eq-ok (open_transaction db session run_jobs) _ h2 in
    claim_candidate-none (organization_of session) i hook claim _ db h3

claimed_for-none :
    (organization : ℕ) (db : Db) (m : Result (Option JobRecord × Db)) {after : Db}
    → claimed_for organization db m ≡ ok (none, after)
    → (after ≡ db) ⊎ (m ≡ ok (none, after))
unfolding claimed_for
claimed_for-none organization db (err e) h = elim (Bool-cases (is_denied e)) [
  | inl t ↦ inl (sym (ap (λ (p : Found × Db). p.1) (ok-injective (rw t at h))))
  | inr f ↦ cc (rw f at h)
]
claimed_for-none organization db (ok (none, mid)) h =
    inr (ap (λ t. ok (none, t)) (ap (λ (p : Found × Db). p.1) (ok-injective h)))
claimed_for-none organization db (ok (some job, mid)) h =
    cc (ap (λ (p : Found × Db). p.0) (ok-injective h))

module _ (locked : ℕ → Bool) (i : ℕ → Instant) (hook : Hook) (claim : Claim) where
  claim_in-none :
      (d : Dispatcher) (organization : ℕ) (db : Db) {after : Db}
      → claim_in locked i hook claim d organization db ≡ ok (none, after)
      → after ≡ db
  unfolding claim_in
  claim_in-none d organization db h = elim (claimed_for-none organization db _ h) [
    | inl same ↦ same
    | inr e ↦
        claim_next_job-none locked (session_for d organization) (i organization) hook claim db e
  ]

  -- A claim for an organization finds no job, or is denied, and changes nothing.
  abbrev pub Vain : Dispatcher → Db → ℕ → Type 0
  Vain d db organization = claim_in locked i hook claim d organization db ≡ ok (none, db)

  try_pending-none :
      (d : Dispatcher) (os : List ℕ) (db : Db) {left : List ℕ} {after : Db}
      → try_pending (claim_in locked i hook claim d) os db ≡ ok (none, left, after)
      → (left ≡ []) × (after ≡ db) × All (Vain d db) os
  unfolding try_pending
  try_pending-none d [] db h = (
    sym (ap (λ (p : Found × List ℕ × Db). p.1) (ok-injective h)),
    sym (ap (λ (p : Found × List ℕ × Db). p.2) (ok-injective h)),
    tt,
  )
  try_pending-none d (o ∷ os) db h =
      let ((claimed, mid), one, rest) = >>=-eq-ok (claim_in locked i hook claim d o db) _ h in
      elim (Option-cases claimed) [
        | inl idle ↦
            let tried = one ∙ ap (λ (t : Found). ok (t, mid)) idle in
            let same = claim_in-none d o db tried in
            let (l, a, others) = try_pending-none d os mid (rw idle at rest) in
            (
              l,
              a ∙ same,
              (
                tried ∙ ap (λ (x : Db). ok (none, x)) same,
                subst (λ (x : Db). All (Vain d x) os) same others,
              ),
            )
        | inr p ↦ cc (ap (λ (q : Found × List ℕ × Db). q.0) (ok-injective (rw p.1 at rest)))
      ]

  -- A claim of a dispatched worker that returns no job leaves the database as it is, for every organization
  -- that was pending and every one of the new round a claim finds nothing or is denied, and none is pending
  -- after it.
  pub claim_dispatched-none :
      (now : Instant) (r : Rotation) (db : Db) {next : Rotation} {after : Db}
      → claim_dispatched locked now i hook claim r db ≡ ok (none, next, after)
      → (after ≡ db)
        × (next.pending ≡ [])
        × ((found : List ℕ) × (next_organizations now claim.now r.dispatcher db
              ≡ ok (found, next.dispatcher))
            × All (Vain next.dispatcher db) found)
        × All (Vain r.dispatcher db) r.pending
  unfolding claim_dispatched
  claim_dispatched-none now r db h =
      let ((first, rest, mid), one, more) =
        >>=-eq-ok (try_pending (claim_in locked i hook claim r.dispatcher) r.pending db) _ h in
      elim (Option-cases first) [
        | inr p ↦ cc (ap (λ (q : Found × Rotation × Db). q.0) (ok-injective (rw p.1 at more)))
        | inl idle ↦
            let (_, same, vain) =
              try_pending-none r.dispatcher r.pending db
                (one ∙ ap (λ (t : Found). ok (t, rest, mid)) idle) in
            let ((found, d), round, last) =
              >>=-eq-ok (next_organizations now claim.now r.dispatcher mid) _ (rw idle at more) in
            let ((second, left, end_), two, e) =
              >>=-eq-ok (try_pending (claim_in locked i hook claim d) found mid) _ last in
            let e' = ok-injective e in
            let nothing = ap (λ (q : Found × Rotation × Db). q.0) e' in
            let (l, a, more_vain) =
              try_pending-none d found mid (two ∙ ap (λ (t : Found). ok (t, left, end_)) nothing) in
            (
              sym (ap (λ (q : Found × Rotation × Db). q.2) e') ∙ a ∙ same,
              sym (ap (λ (q : Found × Rotation × Db). q.1.pending) e') ∙ l,
              (
                found,
                rw same at (
                    round
                    ∙ ap (λ t. ok (found, t))
                        (ap (λ (q : Found × Rotation × Db). q.1.dispatcher) e')),
                subst (λ (x : Dispatcher). All (Vain x db) found)
                    (ap (λ (q : Found × Rotation × Db). q.1.dispatcher) e')
                    (subst (λ (x : Db). All (Vain d x) found) same more_vain),
              ),
              vain,
            )
      ]
