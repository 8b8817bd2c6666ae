-- ===== src/Explanation/Survival.antt =====
-- An explanation that fails raises nothing, and one that is given was validated.
use mervio.Prelude.{
  ℕ, Bool, List, String, Option, ◌≡◌, ◌≤◌, ◌∷◌, [], some, none, true, false, refl, arith, if-elim,
  suc, ◌==◌, not, ◌||◌, leb, ltb,
}
use mervio.Json.Dump.{str_len}
use mervio.Provider.{
  LlmConfig, Run, Tried, gave, failed, interrupted, CallEnd, answered, refused, escaped,
  unreachable, Called, call_provider, call_over, next_try, attempts_from, run_with_timeout, relayed,
  check_response, is_transient, check_config, Generated, returned, mistyped, unexpected, exiting,
  raised, waited, Usage, refused_usage, used, no_usage,
}
use mervio.Provider.Bounds.{call_provider-Bounded, EndsBy}
use mervio.Explanation.{
  Built, built, context_refused, context_broken, context_exits, ValidationEnd, valid, rejected,
  validation_broken, validation_exits, Metadata, ExplanationResult, has_succeeded, after_validation,
  after_call, explain_report, first_metadata, unavailable_result, provider_code,
}

-- A usage that `dict` takes, or a false one.
abbrev pub Typed : Usage → Type 0
Typed refused_usage = ⊥
Typed _ = Unit

-- No SystemExit and the like, and no response with a usage that `dict` refuses.
abbrev pub Raises : Generated → Type 0
Raises exiting = ⊥
Raises (returned response) = Typed response.usage
Raises _ = Unit

abbrev pub Builds : Built → Type 0
Builds context_exits = ⊥
Builds _ = Unit

abbrev pub Decides : {E : Type 0} → ValidationEnd E → Type 0
Decides validation_exits = ⊥
Decides _ = Unit

abbrev pub Stays : Tried → Type 0
Stays interrupted = ⊥
Stays (gave response) = Typed response.usage
Stays _ = Unit

abbrev pub Ends : CallEnd → Type 0
Ends escaped = ⊥
Ends (answered response n) = Typed response.usage
Ends _ = Unit

relayed-Stays : (config : LlmConfig) (g : Generated) → Raises g → Stays (relayed config g)
unfolding relayed check_response
relayed-Stays config (returned response) h =
    if-elim Stays (ltb config.max_output_chars (str_len response.text)) (λ e. tt) (λ e. h)
relayed-Stays config mistyped h = tt
relayed-Stays config unexpected h = tt
relayed-Stays config exiting h = absurd h
relayed-Stays config (raised error) h = tt

run_with_timeout-Stays :
    (config : LlmConfig) (run : Run) → Raises run.generated → Stays (run_with_timeout config run)
unfolding run_with_timeout
run_with_timeout-Stays config run h =
    if-elim Stays (leb run.took config.timeout) (λ e. relayed-Stays config run.generated h)
      (λ e. tt)

next_try-Ends :
    (config : LlmConfig) (last attempt spent : ℕ) (t : Tried) (rest : Called)
    → Stays t
    → Ends rest.call_end
    → Ends (next_try config last attempt spent t rest).call_end
unfolding next_try
next_try-Ends config last attempt spent (gave response) rest s h = s
next_try-Ends config last attempt spent (failed error) rest s h =
    if-elim (λ (c : Called). Ends c.call_end) (not (is_transient error) || attempt == last)
      (λ e. tt) (λ e. h)
next_try-Ends config last attempt spent interrupted rest s h = absurd s

call_over-Ends :
    (provider : ℕ → Run) (config : LlmConfig) (last : ℕ) (attempts : List ℕ)
    → ((n : ℕ) → Raises (provider n).generated)
    → Ends (call_over provider config last attempts).call_end
unfolding call_over
call_over-Ends provider config last [] h = tt
call_over-Ends provider config last (attempt ∷ attempts) h =
    next_try-Ends config last attempt (waited config (provider attempt))
      (run_with_timeout config (provider attempt)) (call_over provider config last attempts)
      (run_with_timeout-Stays config (provider attempt) (h attempt))
      (call_over-Ends provider config last attempts h)

-- What a result says: an explanation that was validated, of a text that is short enough, or a code.
abbrev pub Faithful :
    {E : Type 0} → LlmConfig → (String → ValidationEnd E) → ExplanationResult E → Type 0
Faithful {E} config validate result =
    (has_succeeded result ≡ true
      → (text : String) × (explanation : E) × (result.explanation ≡ some explanation)
        × (validate text ≡ valid explanation)
        × (str_len text ≤ config.max_output_chars))
    × (has_succeeded result ≡ false
        → (code : String) × (result.error_code ≡ some code) × (result.explanation ≡ none))
    × (result.metadata.attempts ≤ suc config.max_retries)

module _ {E : Type 0} (config : LlmConfig) (validate : String → ValidationEnd E) where
  -- A call for an explanation that returns a faithful result.
  abbrev pub Survives : Option (ExplanationResult E) → Type 0
  Survives outcome =
      (result : ExplanationResult E) × (outcome ≡ some result) × Faithful config validate result

  unavailable_result-Survives :
      (metadata : Metadata) (code : String) (issues : List String)
      → metadata.attempts ≤ suc config.max_retries
      → Survives (some (unavailable_result metadata code issues))
  unavailable_result-Survives metadata code issues few = (
    unavailable_result metadata code issues,
    refl,
    ((λ e. absurd (cc e)), (λ e. (code, refl, refl)), few),
  )

  after_validation-Survives :
      (metadata : Metadata) (text : String) (v : ValidationEnd E)
      → metadata.attempts ≤ suc config.max_retries
      → str_len text ≤ config.max_output_chars
      → validate text ≡ v
      → Decides v
      → Survives (after_validation metadata v)
  unfolding after_validation
  after_validation-Survives metadata text (valid explanation) few fits e d =
      (_, refl, ((λ h. (text, explanation, refl, e, fits)), (λ h. absurd (cc h)), few))
  after_validation-Survives metadata text (rejected issues) few fits e d =
      unavailable_result-Survives metadata "invalid_response" issues few
  after_validation-Survives metadata text validation_broken few fits e d =
      unavailable_result-Survives metadata "validation_error" [] few
  after_validation-Survives metadata text validation_exits few fits e d = absurd d

  after_call-Survives :
      (metadata : Metadata) (elapsed : ℕ) (end : CallEnd)
      → EndsBy config 1 (suc config.max_retries) end
      → Ends end
      → ((text : String) → Decides (validate text))
      → Survives (after_call metadata validate elapsed end)
  unfolding after_call
  after_call-Survives metadata elapsed (answered response n) b s d = answered_with response.usage s
    where
      answered_with :
          (usage : Usage)
          → Typed usage
          → Survives (
              after_call metadata validate elapsed
                (answered (record { text = response.text; usage = usage }) n))
      answered_with no_usage t =
          after_validation-Survives _ response.text (validate response.text) b.1 b.2 refl
            (d response.text)
      answered_with (used tokens) t =
          after_validation-Survives _ response.text (validate response.text) b.1 b.2 refl
            (d response.text)
      answered_with refused_usage t = absurd t
  after_call-Survives metadata elapsed (refused error n) b s d =
      unavailable_result-Survives (record metadata { attempts = n; latency_ms = some elapsed })
        (provider_code error) [] b.1
  after_call-Survives metadata elapsed escaped b s d = absurd s
  after_call-Survives metadata elapsed unreachable b s d = absurd b

-- As long as nothing raises an exception such as SystemExit, and no response of the provider has a usage
-- that `dict` refuses, a call for an explanation under a
-- configuration that LLMConfig accepts raises nothing, whatever else fails: it returns a result. A result
-- that has succeeded carries an explanation that the validation made of a text no longer than the
-- configuration asks, any other carries an error code and no explanation, and each tells at most as many
-- attempts as the configuration allows.
pub explain_report-Survives :
    {E : Type 0} (provider : ℕ → Run) (config : LlmConfig) (is_blank : String → Bool)
    (context : Built) (validate : String → ValidationEnd E)
    → check_config is_blank config ≡ true
    → ((n : ℕ) → Raises (provider n).generated)
    → Builds context
    → ((text : String) → Decides (validate text))
    → (result : ExplanationResult E) × (explain_report provider config context validate
        ≡ some result)
      × Faithful config validate result
unfolding explain_report call_provider
explain_report-Survives provider config is_blank (built fingerprint) validate ok p c d =
    after_call-Survives config validate
      (record first_metadata { request_fingerprint = some fingerprint })
      (call_provider provider config).elapsed (call_provider provider config).call_end
      (call_provider-Bounded provider config is_blank ok).0
      (call_over-Ends provider config (suc config.max_retries)
        (attempts_from 1 (suc config.max_retries)) p)
      d
explain_report-Survives provider config is_blank context_refused validate ok p c d =
    unavailable_result-Survives config validate first_metadata "context_invalid" [] (ground arith)
explain_report-Survives provider config is_blank context_broken validate ok p c d =
    unavailable_result-Survives config validate first_metadata "context_error" [] (ground arith)
explain_report-Survives provider config is_blank context_exits validate ok p c d = absurd c
