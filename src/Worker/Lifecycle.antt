-- ===== src/Worker/Lifecycle.antt =====
-- The life cycle of the worker process (workers/lifecycle.py).
use mervio.Prelude.{
  ◌++◌, ◌⊎◌, List, Bool-cases, ◌∷◌, ◌≡◌, Bool, [], inl, if◌then◌else◌, true, refl, inr, false,
  arith, ap,
}

pub data ProcessState : Type 0 where
  starting ready busy degraded draining stopped forced : ProcessState

-- TERMINAL
abbrev pub is_final : ProcessState → Bool
is_final stopped = true
is_final forced = true
is_final _ = false

-- TRANSITIONS
unfoldable pub transitions : ProcessState → ProcessState → Bool
transitions starting ready = true
transitions starting draining = true
transitions starting stopped = true
transitions starting forced = true
transitions ready busy = true
transitions ready degraded = true
transitions ready draining = true
transitions ready forced = true
transitions busy ready = true
transitions busy degraded = true
transitions busy draining = true
transitions busy forced = true
transitions degraded ready = true
transitions degraded draining = true
transitions degraded forced = true
transitions draining stopped = true
transitions draining forced = true
transitions _ _ = false

-- `Lifecycle`, with the calls of `on_change` that were made, the last one at the end.
pub record Lifecycle : Type 0 where
  pub state : ProcessState
  pub history : List ProcessState
  pub changes : List (ProcessState × ProcessState)

unfoldable pub new_lifecycle : Lifecycle
new_lifecycle = record { state = starting; history = starting ∷ []; changes = [] }

-- `can`
unfoldable pub can : ProcessState → Lifecycle → Bool
can target l = transitions l.state target

-- `transition`: the state before and the life cycle after it, or `IllegalTransition` with both states.
unfoldable pub transition :
    ProcessState → Lifecycle → (ProcessState × ProcessState) ⊎ (ProcessState × Lifecycle)
transition target l =
    if transitions l.state target
    then inr (
      l.state,
      record {
        state = target;
        history = l.history ++ (target ∷ []);
        changes = l.changes ++ ((l.state, target) ∷ []);
      },
    )
    else inl (l.state, target)

-- `transition_if_allowed`
unfoldable pub transition_if_allowed : ProcessState → Lifecycle → Bool × Lifecycle
transition_if_allowed target l =
    if transitions l.state target
    then elim (transition target l) [ inl e ↦ (false, l) | inr p ↦ (true, p.1) ]
    else (false, l)

-- Calls of one of the two, one after another; a call that raises leaves the life cycle as it is.
pub data Call : Type 0 where
  strict lenient : ProcessState → Call

unfoldable pub call : Call → Lifecycle → Lifecycle
call (strict target) l = elim (transition target l) [ inl e ↦ l | inr p ↦ p.1 ]
call (lenient target) l = (transition_if_allowed target l).1

unfoldable pub calls : List Call → Lifecycle → Lifecycle
calls [] l = l
calls (c ∷ cs) l = calls cs (call c l)

abbrev target_of : Call → ProcessState
target_of (strict t) = t
target_of (lenient t) = t

abbrev moved : ProcessState → Lifecycle → Lifecycle
moved t l = record {
  state = t;
  history = l.history ++ (t ∷ []);
  changes = l.changes ++ ((l.state, t) ∷ []);
}

-- Both calls do the same to the life cycle.
call-eq :
    (c : Call) (l : Lifecycle)
    → call c l ≡ (if transitions l.state (target_of c) then moved (target_of c) l else l)
unfolding call transition transition_if_allowed
call-eq (strict t) l = ground arith
call-eq (lenient t) l = ground arith

-- A walk along TRANSITIONS, from one state through a list of states to another.
abbrev pub Walk : ProcessState → List ProcessState → ProcessState → Type 0
Walk s [] t = s ≡ t
Walk s (x ∷ xs) t = (transitions s x ≡ true) × Walk x xs t

Walk-snoc :
    (s : ProcessState) (xs : List ProcessState) (t u : ProcessState)
    → Walk s xs t
    → transitions t u ≡ true
    → Walk s (xs ++ (u ∷ [])) u
Walk-snoc s [] t u w e = (rw w e, refl)
Walk-snoc s (x ∷ xs) t u w e = (w.0, Walk-snoc x xs t u w.1 e)

-- The history is a walk from STARTING to the current state.
pub record Walked (l : Lifecycle) : Type 0 where
  pub steps : List ProcessState
  pub recorded : l.history ≡ starting ∷ steps
  pub walk : Walk starting steps l.state

call-Walked : (c : Call) (l : Lifecycle) → Walked l → Walked (call c l)
call-Walked c l w = elim (Bool-cases (transitions l.state (target_of c))) [
  | inl e ↦
      rw (call-eq c l, e)
        (record {
          steps = w.steps ++ (target_of c ∷ []);
          recorded = ap (λ h. h ++ (target_of c ∷ [])) w.recorded;
          walk = Walk-snoc starting w.steps l.state (target_of c) w.walk e;
        })
  | inr e ↦ rw (call-eq c l, e) w
]

calls-Walked : (cs : List Call) (l : Lifecycle) → Walked l → Walked (calls cs l)
unfolding calls
calls-Walked [] l w = w
calls-Walked (c ∷ cs) l w = calls-Walked cs (call c l) (call-Walked c l w)

-- Whatever is called on a new life cycle, its history starts at STARTING, every step of it is one that
-- TRANSITIONS allows, and it ends at the current state.
pub history_walks : (cs : List Call) → Walked (calls cs new_lifecycle)
unfolding new_lifecycle
history_walks cs =
    calls-Walked cs new_lifecycle (record { steps = []; recorded = refl; walk = refl })

final-stuck : (s t : ProcessState) → is_final s ≡ true → transitions s t ≡ false
unfolding transitions
final-stuck s t h = ground arith

-- Once the process has stopped or was forced to stop, no call changes the life cycle any more: not its
-- state, its history or the notifications.
pub stopped_for_good : (cs : List Call) (l : Lifecycle) → is_final l.state ≡ true → calls cs l ≡ l
unfolding calls
stopped_for_good [] l h = refl
stopped_for_good (c ∷ cs) l h =
    rw (call-eq c l, final-stuck l.state (target_of c) h) (stopped_for_good cs l h)

abbrev pub is_leaving : ProcessState → Bool
is_leaving draining = true
is_leaving s = is_final s

leaving-kept :
    (s t : ProcessState) → is_leaving s ≡ true → transitions s t ≡ true → is_leaving t ≡ true
unfolding transitions
leaving-kept s t h k = ground arith

-- Once the process drains, it never takes work again: whatever is called, it is draining, stopped or
-- forced to stop.
pub draining_for_good :
    (cs : List Call) (l : Lifecycle)
    → is_leaving l.state ≡ true
    → is_leaving (calls cs l).state ≡ true
unfolding calls
draining_for_good [] l h = h
draining_for_good (c ∷ cs) l h =
    draining_for_good cs (call c l) (elim (Bool-cases (transitions l.state (target_of c))) [
      | inl e ↦ rw (call-eq c l, e) (leaving-kept l.state (target_of c) h e)
      | inr e ↦ rw (call-eq c l, e) h
    ])
