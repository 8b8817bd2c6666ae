-- ===== src/Jobs/Refinement.antt =====
-- The operations of persistence/jobs.py implement the life of a job.
use mervio.Jobs.Permits.{
  waiting-permits, permits-cancelled, permits-succeeded, permits-failed, permits-queued,
}
use mervio.Jobs.Lineage.{row_of, row_of-absent, find_row-head, find_row-tail}
use mervio.Database.{Db}
use mervio.Jobs.Recovery.{delete_rows}
use mervio.Jobs.History.{history, Operation, attempt, acts_for, attempt-Table}
use mervio.Jobs.Queue.{find_row, has_id}
use mervio.Jobs.Table.{
  same_identity-max_attempts, Updates, IsValid, Step, Table, UniqueIds, updated, unchanged,
  Removable, added, next, Updates-IsValid, Table-IsValid, All-delete_rows, same_identity-id,
  removed,
}
use mervio.Jobs.Machine.{
  CallKind, Does, Does-trans, Life, over, goes_on, stage_of, stage_at, stage, pending, held, absent,
  claims, cancels, gives_back, succeeds, abandons, vanishes, enqueues, done, gave_up, withdrawn,
  permits, by_purge,
}
use mervio.Prelude.{◌⊎◌}
use mervio.Jobs.History.{kind_of}
use mervio.Jobs.Trigger.{Counted, Governed}
use mervio.Prelude.{
  ◌≡◌, ℕ, true, ◌≤◌, inl, false, arith, ◌+◌, inr, Bool-cases, refl, List, Each, Bool, All, ◌∷◌,
  none, [], ==_iff, ◌≢◌,
}
use mervio.Jobs.Record.{
  JobRecord, JobStatus, queued, running, is_terminal_status, succeeded, failed, cancelled,
}
use mervio.Jobs.Guard.{legal_transition, row_checks}

counts-claim :
    (old new : JobRecord)
    → Counted old new
    → old.status ≡ queued
    → new.status ≡ running
    → new.attempts ≡ old.attempts + 1
counts-claim old new (inl c) p q = c.2
counts-claim old new (inr c) p q = absurd (c.0 (p, q))

counts-other :
    (old new : JobRecord)
    → Counted old new
    → ¬ ((old.status ≡ queued) × (new.status ≡ running))
    → new.attempts ≡ old.attempts
counts-other old new (inl c) differs = absurd (differs (c.0, c.1))
counts-other old new (inr c) differs = c.1

-- A write along the graph of the trigger that the kind of the call permits, told of the stages.
legal-Does :
    (k : CallKind) (s t : JobStatus) (n m bound : ℕ)
    → is_terminal_status s ≡ false
    → legal_transition s t ≡ true
    → permits k s t ≡ true
    → ((s ≡ queued) × (t ≡ running) → m ≡ n + 1)
    → (¬ ((s ≡ queued) × (t ≡ running)) → m ≡ n)
    → m ≤ bound
    → Does k (stage_at s n bound) (stage_at t m bound)
unfolding legal_transition
legal-Does k queued t n m bound o l p claim other fits = from_queued t l p claim other
  where
    from_queued :
        (w : JobStatus)
        → legal_transition queued w ≡ true
        → permits k queued w ≡ true
        → ((queued ≡ queued) × (w ≡ running) → m ≡ n + 1)
        → (¬ ((queued ≡ queued) × (w ≡ running)) → m ≡ n)
        → Does k (pending n bound) (stage_at w m bound)
    from_queued queued l p claim other = rw (other (λ q. cc (q.1))) (inl refl)
    from_queued running l p claim other = rw (claim (refl, refl)) (
        inr (
          claims n bound (waiting-permits k running p refl)
            (omega (arith, fits, claim (refl, refl)))))
    from_queued cancelled l p claim other =
        rw (other (λ q. cc (q.1))) (inr (cancels n bound (permits-cancelled k queued p)))
    from_queued succeeded l p claim other = cc
    from_queued failed l p claim other = cc
legal-Does k running t n m bound o l p claim other fits =
    rw (other (λ q. cc (q.0))) (from_running t l p)
  where
    from_running :
        (w : JobStatus)
        → legal_transition running w ≡ true
        → permits k running w ≡ true
        → Does k (held n bound) (stage_at w n bound)
    from_running queued l p = inr (gives_back n bound (permits-queued k running p))
    from_running running l p = inl refl
    from_running succeeded l p = inr (succeeds n bound (permits-succeeded k running p))
    from_running failed l p = inr (abandons n bound (permits-failed k running p))
    from_running cancelled l p = cc
legal-Does k succeeded t n m bound o l p claim other fits = cc
legal-Does k failed t n m bound o l p claim other fits = cc
legal-Does k cancelled t n m bound o l p claim other fits = cc

checked-fits : (row : JobRecord) → row_checks row ≡ true → row.attempts ≤ row.max_attempts
unfolding row_checks
checked-fits row c = ground arith

-- One row through one accepted UPDATE makes one move of the kind of the call, or none.
Governed-Does :
    (k : CallKind) (old new : JobRecord)
    → row_checks old ≡ true
    → Governed old new
    → (old ≡ new) ⊎ (permits k old.status new.status ≡ true)
    → Does k (stage_of old) (stage_of new)
Governed-Does k old new c g (inl same) = rw same (inl refl)
Governed-Does k old new c g (inr p) = elim (Bool-cases (is_terminal_status old.status)) [
  | inl t ↦ rw (← g.frozen t) (inl refl)
  | inr o ↦ elim g.moved [
    | inl same ↦ rw same (inl refl)
    | inr legal ↦
        let bound : new.max_attempts ≡ old.max_attempts =
          same_identity-max_attempts old new g.kept in
        let fits : new.attempts ≤ old.max_attempts = rw bound at (checked-fits new (g.checked c)) in
        rw bound (
          legal-Does k old.status new.status old.attempts new.attempts old.max_attempts o legal p
            (λ q. counts-claim old new g.counted q.0 q.1) (counts-other old new g.counted) fits)
  ]
]

module _ (organization : ℕ) (k : CallKind) (id : ℕ) where
  stage-Each :
      (rows after : List JobRecord)
      → Each (Step organization k) rows after
      → All (λ row. row_checks row ≡ true) rows
      → Does k (stage (row_of id rows)) (stage (row_of id after))
  unfolding find_row
  stage-Each [] [] h c = inl refl
  stage-Each (row ∷ rows) (new ∷ after) h c =
      let same : new.id ≡ row.id = same_identity-id row new h.0.governed.kept in
      elim (Bool-cases (has_id id row)) [
        | inl t ↦
            rw (t, find_row-head (has_id id) new after (rw same t))
              (Governed-Does k row new c.0 h.0.governed h.0.permitted)
        | inr f ↦
            rw (f, find_row-tail (has_id id) new after (rw same f)) (stage-Each rows after h.1 c.1)
      ]
  stage-Each [] (new ∷ after) h c = absurd h
  stage-Each (row ∷ rows) [] h c = absurd h

  stage-Updates :
      {rows after : List JobRecord}
      → Updates organization k rows after
      → IsValid rows
      → Does k (stage (row_of id rows)) (stage (row_of id after))
  stage-Updates (unchanged rows) v = inl refl
  stage-Updates (next a b c f e) v =
      Does-trans k (stage (row_of id a)) (stage (row_of id b)) (stage (row_of id c))
        (stage-Updates f v) (stage-Each b c e (Updates-IsValid organization k f v).checked)

  removes-Does :
      (row : JobRecord)
      → k ≡ by_purge
      → is_terminal_status row.status ≡ true
      → Does k (stage_of row) absent
  removes-Does row p h = go row.status h
    where
      go :
          (s : JobStatus)
          → is_terminal_status s ≡ true
          → Does k (stage_at s row.attempts row.max_attempts) absent
      go succeeded e = inr (vanishes done row.attempts row.max_attempts p)
      go failed e = inr (vanishes gave_up row.attempts row.max_attempts p)
      go cancelled e = inr (vanishes withdrawn row.attempts row.max_attempts p)
      go queued e = cc
      go running e = cc

  stage-delete_rows :
      (test : JobRecord → Bool) (rows : List JobRecord)
      → k ≡ by_purge
      → UniqueIds rows
      → Removable organization test rows
      → Does k (stage (row_of id rows)) (stage (row_of id (delete_rows test rows).0))
  unfolding find_row delete_rows
  stage-delete_rows test [] p u r = inl refl
  stage-delete_rows test (row ∷ rows) p u r = elim (Bool-cases (has_id id row)) [
    | inl t ↦
        let gone : row_of id (delete_rows test rows).0 ≡ none =
          row_of-absent organization k id (delete_rows test rows).0
            (All-delete_rows (λ x. x.id ≢ id) test rows (rw ((==_iff row.id id).0 t) at u.0)) in
        elim (Bool-cases (test row)) [
          | inl d ↦ rw (d, t, gone) (removes-Does row p (r.0 d).1)
          | inr d ↦ rw (d, t) (inl refl)
        ]
    | inr f ↦
        let ih = stage-delete_rows test rows p u.1 r.1 in
        elim (Bool-cases (test row)) [ inl d ↦ rw (d, f) ih | inr d ↦ rw (d, f) ih ]
  ]

  pub stage-Table :
      {rows after : List JobRecord}
      → IsValid rows
      → Table organization k rows after
      → Does k (stage (row_of id rows)) (stage (row_of id after))
  stage-Table v (updated rows after u) = stage-Updates u v
  stage-Table v (added new rows p a) = elim (Bool-cases (has_id id new)) [
    | inl t ↦
        rw
          (
            row_of-absent organization k id rows (rw ((==_iff new.id id).0 t) at a.fresh),
            find_row-head (has_id id) new rows t,
            a.waiting,
            a.unused,
          )
          (inr (enqueues new.max_attempts p))
    | inr f ↦ rw (find_row-tail (has_id id) new rows f) (inl refl)
  ]
  stage-Table v (removed test rows after p e r) = rw e (stage-delete_rows test rows p v.unique r)

-- Of a valid table, whatever one call does, whoever makes it and whether it raises or not, it makes of each
-- job what its kind may, or leaves it at its stage.
pub attempt-Does :
    (op : Operation) (db : Db) (id : ℕ)
    → IsValid db.jobs
    → Does (kind_of op) (stage (row_of id db.jobs)) (stage (row_of id (attempt op db).jobs))
attempt-Does op db id v = stage-Table (acts_for op) (kind_of op) id v (attempt-Table op db)

-- The kinds of the calls of a history.
abbrev pub kinds : List Operation → List CallKind
kinds [] = []
kinds (op ∷ ops) = kind_of op ∷ kinds ops

-- From a valid table, through any sequence of calls, whoever makes them and whether they raise or not,
-- each call makes at most one move of each job, and only one of its kind: an enqueueing brings a job
-- without attempts, a claim takes a waiting one and counts an attempt within its bound, a success ends a
-- held one, a failure or a recovery gives a held one back or up, a requeue gives it back, a cancellation
-- withdraws a waiting one, a purge removes an ended one, and a renewal moves none. Bounds are kept.
pub history-Life :
    (ops : List Operation) (db : Db) (id : ℕ)
    → IsValid db.jobs
    → Life (kinds ops) (stage (row_of id db.jobs)) (stage (row_of id (history ops db).jobs))
unfolding history
history-Life [] db id v = over (stage (row_of id db.jobs))
history-Life (op ∷ ops) db id v =
    goes_on (kind_of op) (kinds ops) (stage (row_of id db.jobs))
      (stage (row_of id (attempt op db).jobs))
      (stage (row_of id (history ops (attempt op db)).jobs)) (attempt-Does op db id v)
      (history-Life ops (attempt op db) id
        (Table-IsValid (acts_for op) (kind_of op) (attempt-Table op db) v))
