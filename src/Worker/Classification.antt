-- ===== src/Worker/Classification.antt =====
-- What `classify` of workers/errors.py decides, and that its codes can be stored.
use mervio.Jobs.Agreement.Ending.{non_empty_text}
use mervio.Json.Dump.{codes, str_len}
use mervio.Jobs.Guard.{is_some}
use mervio.Prelude.{
  Option, ◌≡◌, String, Bool, some, false, arith, not, refl, ◌&&◌, ◌||◌, none, ◌≤◌, List, length, ℕ,
  take, ◌∷◌, length-append, [], ◌⊎◌, length-take, true, if-elim, inl, inr, le→leb,
}
use mervio.Worker.Failures.{
  Kind, classify, classify_kind, Raised, classify_other, retryable_database_error, is_permanent,
  is_operational, is_mervio, job_execution_error, is_persistence, one_of, retryable_sqlstates,
  job_lease_lost_error, code_of, snake, class_name, snake_char, snake_rest, Verdict,
  database_error_code, sqlstate_prefix, operational_error,
}

-- By the state of a driver error, where an operational error without a state is a lost connection.
abbrev pub passing : Kind → Option String → Bool
passing k none = is_operational k
passing k (some state) = one_of state retryable_sqlstates

-- When a failure may be tried again, from what is known of it: its own mark; else never a lost lease or
-- a request that is at fault; else a database error by its state; else what is no error of the program.
abbrev pub may_retry : Kind → Option String → Bool
may_retry (job_execution_error code retryable) state = retryable
may_retry job_lease_lost_error state = false
may_retry k state =
    not (is_permanent k) && (passing k state || (not (is_some state) && not (is_mervio k)))

classify_other-may_retry :
    (e : Raised) (k : Kind) (st : Option String)
    → e.kind ≡ k
    → e.sqlstate ≡ st
    → (classify_kind k e).retryable ≡ may_retry k st
unfolding classify_kind classify_other retryable_database_error is_permanent is_mervio
    is_persistence
classify_other-may_retry e k st h g = ground (arith, h, g)

-- `classify` lets a failure be tried again in exactly these cases: a job's own error says so; or it is
-- no lost lease and none of the permanent errors, and either its SQLSTATE is one of the transient ones,
-- or it has none and is an operational error of the driver or no error of the program.
pub classify-may_retry : (e : Raised) → (classify e).retryable ≡ may_retry e.kind e.sqlstate
unfolding classify
classify-may_retry e = classify_other-may_retry e e.kind e.sqlstate refl refl

-- A code that fits the column `last_error_code`.
abbrev pub Fits : List ℕ → Type 0
Fits code = (1 ≤ length code) × (length code ≤ 100)

length-take-pos : (os : List ℕ) → 1 ≤ length os → 1 ≤ length (take 100 os)
length-take-pos [] h = absurd (omega (arith, h))
length-take-pos (o ∷ os) h = omega arith

snake_char-pos : (first : Bool) (c : ℕ) → 1 ≤ length (snake_char first c)
snake_char-pos first c = ground arith

length-snake-pos : (os : List ℕ) → 1 ≤ length os → 1 ≤ length (snake os)
unfolding snake
length-snake-pos [] h = absurd (omega (arith, h))
length-snake-pos (c ∷ cs) h =
    rw (length-append (snake_char true c) (snake_rest cs)) (omega (arith, snake_char-pos true c))

code_of-Fits : (e : Raised) → 1 ≤ length (codes (class_name e.kind)) → Fits (code_of e)
unfolding code_of
code_of-Fits e h = (
  length-take-pos (snake (codes (class_name e.kind)))
      (length-snake-pos (codes (class_name e.kind)) h),
  length-take 100 (snake (codes (class_name e.kind))),
)

abbrev pub is_coded : Kind → Bool
is_coded (job_execution_error code retryable) = true
is_coded _ = false

-- An exception that the program can meet: its class has a name, the state of a driver error is a
-- non-empty text of at most 91 characters (SQLSTATEs have five), and it is no error that a handler
-- raised with a code of its own.
pub record Plain (e : Raised) : Type 0 where
  pub named : 1 ≤ length (codes (class_name e.kind))
  pub state :
      (e.sqlstate ≡ none)
      ⊎ ((s : String) × (e.sqlstate ≡ some s) × (1 ≤ str_len s) × (str_len s ≤ 91))
  pub uncoded : is_coded e.kind ≡ false

state-Fits :
    (e : Raised) (s : String)
    → e.sqlstate ≡ some s
    → 1 ≤ str_len s
    → str_len s ≤ 91
    → Fits (database_error_code e)
unfolding database_error_code
state-Fits e s h p l =
    rw (h, non_empty_text s (le→leb 1 (str_len s) p))
      (rw (length-append sqlstate_prefix (codes s)) (omega (arith, p, l), omega (arith, p, l)))

operational-eq : (k : Kind) → is_operational k ≡ true → k ≡ operational_error
operational-eq k t = ground arith

operational-Fits :
    (e : Raised) → e.sqlstate ≡ none → is_operational e.kind ≡ true → Fits (database_error_code e)
unfolding database_error_code class_name
operational-Fits e h o = rw (h, operational-eq e.kind o) (omega arith, omega arith)

retryable-none :
    (e : Raised)
    → e.sqlstate ≡ none
    → retryable_database_error e ≡ true
    → is_operational e.kind ≡ true
unfolding retryable_database_error
retryable-none e h r = ground (arith, h)

abbrev VerdictFits : Verdict → Type 0
VerdictFits v = Fits v.code

classify_other-Fits : (e : Raised) → Plain e → Fits (classify_other e).code
unfolding classify_other
classify_other-Fits e p =
    let c = code_of-Fits e p.named in
    if-elim VerdictFits (is_permanent e.kind) (λ _. c)
      λ _.
        if-elim VerdictFits (retryable_database_error e)
          (λ r. elim p.state [
            | inl n ↦ operational-Fits e n (retryable-none e n r)
            | inr q ↦ state-Fits e q.0 q.1 q.2 q.3
          ])
          λ _.
            if-elim VerdictFits (is_some e.sqlstate)
              (λ r. elim p.state [ inl n ↦ cc (rw n at r) | inr q ↦ state-Fits e q.0 q.1 q.2 q.3 ])
              λ _. if-elim VerdictFits (is_mervio e.kind) (λ _. c) (λ _. c)

classify_kind-Fits :
    (e : Raised) (k : Kind)
    → is_coded k ≡ false
    → Fits (classify_other e).code
    → Fits (classify_kind k e).code
unfolding classify_kind
classify_kind-Fits e k u h = (ground (arith, h), ground (arith, h))

-- The code of a plain exception fits the column of the table: it has between 1 and 100 characters, so
-- that the failure can be published.
pub classify-Fits : (e : Raised) → Plain e → Fits (classify e).code
unfolding classify
classify-Fits e p = classify_kind-Fits e e.kind p.uncoded (classify_other-Fits e p)
