-- ===== src/Jobs/Machine.antt =====
-- The life of one job as persistence/jobs.py promises it, without its row: what is told of it, and what
-- each kind of call may make of it.
use mervio.Prelude.{sym}
use mervio.Prelude.{
  ℕ, Bool, true, false, List, [], ◌∷◌, Option, none, some, ◌+◌, ◌≤◌, ◌≡◌, ◌⊎◌, inl, inr, ◌||◌, ◌&&◌,
}
use mathlib.Core.Path.{subst}
use mervio.Jobs.Record.{
  JobRecord, JobStatus, queued, running, succeeded, failed, cancelled, status_eq,
}

pub data Ending : Type 0 where
  done gave_up withdrawn : Ending

-- A job with the attempts made so far and the bound on them.
pub data Stage : Type 0 where
  absent : Stage
  pending held : ℕ → ℕ → Stage
  ended : Ending → ℕ → ℕ → Stage

-- The kinds of calls.
pub data CallKind : Type 0 where
  by_enqueue by_claim by_renewal by_success by_failure by_requeue : CallKind
  by_cancel by_recovery by_purge : CallKind

-- The calls that may give a job back, and those that may give it up.
abbrev pub may_return : CallKind → Bool
may_return by_failure = true
may_return by_requeue = true
may_return by_recovery = true
may_return _ = false

abbrev pub may_give_up : CallKind → Bool
may_give_up by_failure = true
may_give_up by_recovery = true
may_give_up _ = false

-- What one call makes of the job that it changes. Only a claim counts an attempt, and it keeps within the
-- bound.
pub data Act (k : CallKind) : Stage → Stage → Type 0 where
  enqueues : (bound : ℕ) → k ≡ by_enqueue → Act k absent (pending 0 bound)
  claims :
      (n bound : ℕ) → k ≡ by_claim → n + 1 ≤ bound → Act k (pending n bound) (held (n + 1) bound)
  cancels : (n bound : ℕ) → k ≡ by_cancel → Act k (pending n bound) (ended withdrawn n bound)
  gives_back : (n bound : ℕ) → may_return k ≡ true → Act k (held n bound) (pending n bound)
  succeeds : (n bound : ℕ) → k ≡ by_success → Act k (held n bound) (ended done n bound)
  abandons : (n bound : ℕ) → may_give_up k ≡ true → Act k (held n bound) (ended gave_up n bound)
  vanishes : (o : Ending) (n bound : ℕ) → k ≡ by_purge → Act k (ended o n bound) absent

-- One call makes at most one move of a job.
abbrev pub Does : CallKind → Stage → Stage → Type 0
Does k s t = (s ≡ t) ⊎ Act k s t

-- The calls of a history, one after another.
pub data Life : List CallKind → Stage → Stage → Type 0 where
  over : (s : Stage) → Life [] s s
  goes_on :
      (k : CallKind) (ks : List CallKind) (s t u : Stage)
      → Does k s t
      → Life ks t u
      → Life (k ∷ ks) s u

-- After its move a job is where no call of the same kind moves it.
act_once : (k : CallKind) {s t u : Stage} → Act k s t → Act k t u → ⊥
act_once k (enqueues bound p) (claims n b q l) = cc (p, q)
act_once k (enqueues bound p) (cancels n b q) = cc (p, q)
act_once k (claims n b p l) (gives_back m c r) = cc (rw p at r)
act_once k (claims n b p l) (succeeds m c q) = cc (p, q)
act_once k (claims n b p l) (abandons m c r) = cc (rw p at r)
act_once k (cancels n b p) (vanishes o m c q) = cc (p, q)
act_once k (gives_back n b r) (claims m c q l) = cc (rw q at r)
act_once k (gives_back n b r) (cancels m c q) = cc (rw q at r)
act_once k (succeeds n b p) (vanishes o m c q) = cc (p, q)
act_once k (abandons n b r) (vanishes o m c q) = cc (rw q at r)
act_once k (vanishes o n b p) (enqueues c q) = cc (p, q)

pub Does-trans : (k : CallKind) (s t u : Stage) → Does k s t → Does k t u → Does k s u
Does-trans k s t u (inl e) d = subst (λ x. Does k x u) (sym e) d
Does-trans k s t u (inr a) (inl e) = subst (λ x. Does k s x) e (inr a)
Does-trans k s t u (inr a) (inr b) = absurd (act_once k a b)

-- The statuses that an UPDATE of a call of a kind may write, given the status before.
abbrev pub permits : CallKind → JobStatus → JobStatus → Bool
permits by_claim old new = status_eq new running
permits by_renewal old new = status_eq old running && status_eq new running
permits by_success old new = status_eq new succeeded
permits by_failure old new = status_eq new queued || status_eq new failed
permits by_requeue old new = status_eq new queued
permits by_cancel old new = status_eq new cancelled
permits by_recovery old new = status_eq new queued || status_eq new failed
permits _ old new = false

-- What the row of a job tells, by its status.
abbrev pub stage_at : JobStatus → ℕ → ℕ → Stage
stage_at queued n bound = pending n bound
stage_at running n bound = held n bound
stage_at succeeded n bound = ended done n bound
stage_at failed n bound = ended gave_up n bound
stage_at cancelled n bound = ended withdrawn n bound

abbrev pub stage_of : JobRecord → Stage
stage_of row = stage_at row.status row.attempts row.max_attempts

abbrev pub stage : Option JobRecord → Stage
stage none = absent
stage (some row) = stage_of row
