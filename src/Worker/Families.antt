-- ===== src/Worker/Families.antt =====
-- The family of a driver error (`database_failure_kind` of persistence/retry.py).
use mervio.Json.Dump.{str_len, codes}
use mervio.Jobs.Token.{codes_eq}
use mervio.Worker.Failures.{
  Raised, retryable_database_error, Kind, retryable_sqlstates, one_of, operational_error,
  is_operational, psycopg_error,
}
use mervio.Prelude.{
  Bool, Option, String, List, false, if◌then◌else◌, true, ◌≡◌, take, none, some, All, ◌||◌, ◌∷◌,
  refl, str_eq, [], Bool-cases, inl, ◌&&◌, str_eq_iff, inr, arith,
}

pub data Family : Type 0 where
  unavailable schema conflict privilege other_family : Family

-- isinstance(exc, psycopg.Error)
abbrev pub is_driver : Kind → Bool
is_driver operational_error = true
is_driver psycopg_error = true
is_driver _ = false

-- str.startswith
abbrev pub starts_with : String → String → Bool
starts_with s start = codes_eq (take (str_len start) (codes s)) (codes start)

-- AUDIT_VOCABULARY_CONSTRAINTS
abbrev pub is_vocabulary : Option String → Bool
is_vocabulary none = false
is_vocabulary (some name) =
    one_of name ("audit_events_action_check" ∷ "audit_events_resource_type_check" ∷ [])

unfoldable pub family_of_state : String → Option String → Family
family_of_state state constraint =
    if (starts_with state "08" || starts_with state "28")
      || one_of state ("57P01" ∷ "57P02" ∷ "57P03" ∷ "53300" ∷ [])
    then unavailable
    else if one_of state ("42P01" ∷ "42703" ∷ "42883" ∷ "3F000" ∷ [])
    then schema
    else if str_eq state "23514" && is_vocabulary constraint
    then schema
    else if starts_with state "23"
    then conflict
    else if str_eq state "42501"
    then privilege
    else other_family

-- `database_failure_kind`
unfoldable pub database_failure_kind : Raised → Option Family
database_failure_kind e =
    if is_driver e.kind
    then elim e.sqlstate [
      | none ↦ some (if is_operational e.kind then unavailable else other_family)
      | some state ↦ some (family_of_state state e.constraint_name)
    ]
    else none

-- A family that another attempt cannot help.
abbrev pub is_lasting : Family → Bool
is_lasting schema = true
is_lasting conflict = true
is_lasting privilege = true
is_lasting _ = false

one_of-All :
    (P : String → Type 0) (s : String) (ss : List String) → All P ss → one_of s ss ≡ true → P s
one_of-All P s [] a h = cc h
one_of-All P s (t ∷ ss) a h = elim (Bool-cases (str_eq s t)) [
  | inl same ↦ rw ((str_eq_iff s t).0 same) a.0
  | inr differ ↦ one_of-All P s ss a.1 (rw differ at h)
]

retryable-passing :
    (state : String) (constraint : Option String)
    → one_of state retryable_sqlstates ≡ true
    → is_lasting (family_of_state state constraint) ≡ false
unfolding retryable_sqlstates family_of_state
retryable-passing state constraint h =
    one_of-All (λ s. is_lasting (family_of_state s constraint) ≡ false) state retryable_sqlstates
      (
        refl,
        (
          refl,
          (
            refl,
            (
              refl,
              (
                refl,
                (
                  refl,
                  (
                    refl,
                    (refl, (refl, (refl, (refl, (refl, (refl, (refl, (refl, (refl, tt))))))))),
                  ),
                ),
              ),
            ),
          ),
        ),
      )
      h

-- A driver error that the administration reports as a missing schema, a conflict with a constraint or a
-- missing privilege is never one that a worker tries again.
pub lasting-never_retried :
    (e : Raised) (family : Family)
    → database_failure_kind e ≡ some family
    → is_lasting family ≡ true
    → retryable_database_error e ≡ false
unfolding database_failure_kind retryable_database_error
lasting-never_retried e family h l = go e.sqlstate refl
  where
    go : (st : Option String) → e.sqlstate ≡ st → retryable_database_error e ≡ false
    go none g = ground (arith, g)
    go (some state) g = elim (Bool-cases (one_of state retryable_sqlstates)) [
      | inl t ↦ ground (arith, g, retryable-passing state e.constraint_name t)
      | inr f ↦ ground (arith, g, f)
    ]
