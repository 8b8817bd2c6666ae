-- ===== src/Explanation.antt =====
-- The explanation of a report by a language model (llm/service.py). The context that is built from the
-- report, and the validation of an answer against it, are arguments.
pub mod Survival
mod Tests
use mervio.Jobs.Guard.{is_some}
use mervio.Prelude.{List, none, Bool, ℕ, Option, String, false, some, ◌&&◌, true, []}
use mervio.Provider.{
  LlmConfig, Run, ProviderError, provider_error, provider_timeout, provider_unavailable,
  provider_rate_limited, provider_authentication_failed, provider_refusal,
  provider_output_too_large, provider_invalid_response, call_provider, CallEnd, answered, refused,
  escaped, unreachable, Usage, used, no_usage, refused_usage,
}

-- `ProviderError.code`
abbrev pub provider_code : ProviderError → String
provider_code provider_error = "provider_error"
provider_code provider_timeout = "provider_timeout"
provider_code provider_unavailable = "provider_unavailable"
provider_code provider_rate_limited = "provider_rate_limited"
provider_code provider_authentication_failed = "provider_authentication_failed"
provider_code provider_refusal = "provider_refusal"
provider_code provider_output_too_large = "provider_output_too_large"
provider_code provider_invalid_response = "provider_invalid_response"

-- The construction of the context and of the request: the fingerprint of the request, LLMContextError,
-- another exception, or one that is no `Exception`.
pub data Built : Type 0 where
  built : String → Built
  context_refused context_broken context_exits : Built

-- `validate_response`: an explanation, ResponseValidationError, another exception, or no `Exception`.
pub data ValidationEnd (E : Type 0) : Type 0 where
  valid : E → ValidationEnd E
  rejected : List String → ValidationEnd E
  validation_broken validation_exits : ValidationEnd E

-- The part of `metadata` that changes.
pub record Metadata : Type 0 where
  pub request_fingerprint : Option String
  pub attempts : ℕ
  pub latency_ms : Option ℕ
  pub usage : Option (List (String × ℕ))

-- `ExplanationResult`
pub record ExplanationResult (E : Type 0) : Type 0 where
  pub completed : Bool
  pub explanation : Option E
  pub error_code : Option String
  pub issues : List String
  pub metadata : Metadata

-- `ExplanationResult.succeeded`
abbrev pub has_succeeded : {E : Type 0} → ExplanationResult E → Bool
has_succeeded result = result.completed && is_some result.explanation

abbrev pub first_metadata : Metadata
first_metadata = record {
  request_fingerprint = none;
  attempts = 0;
  latency_ms = none;
  usage = none;
}

-- `unavailable`
abbrev pub unavailable_result : {E : Type 0} → Metadata → String → List String → ExplanationResult E
unavailable_result metadata code issues = record {
  completed = false;
  explanation = none;
  error_code = some code;
  issues = issues;
  metadata = metadata;
}

-- dict(usage) if usage else None; none is the TypeError of `dict`, which no handler takes.
abbrev pub usage_or_none : Usage → Option (Option (List (String × ℕ)))
usage_or_none no_usage = some none
usage_or_none (used tokens) = some (some tokens)
usage_or_none refused_usage = none

unfoldable pub after_validation :
    {E : Type 0} → Metadata → ValidationEnd E → Option (ExplanationResult E)
after_validation metadata (valid explanation) = some (record {
  completed = true;
  explanation = some explanation;
  error_code = none;
  issues = [];
  metadata = metadata;
})
after_validation metadata (rejected issues) =
    some (unavailable_result metadata "invalid_response" issues)
after_validation metadata validation_broken =
    some (unavailable_result metadata "validation_error" [])
after_validation metadata validation_exits = none

unfoldable pub after_call :
    {E : Type 0}
    → Metadata
    → (String → ValidationEnd E)
    → ℕ
    → CallEnd
    → Option (ExplanationResult E)
unfolding after_validation
after_call metadata validate elapsed (answered response n) = elim (usage_or_none response.usage) [
  | none ↦ none
  | some usage ↦
      after_validation (record metadata { attempts = n; latency_ms = some elapsed; usage = usage })
        (validate response.text)
]
after_call metadata validate elapsed (refused error n) = some (
    unavailable_result (record metadata { attempts = n; latency_ms = some elapsed })
      (provider_code error) [])
after_call metadata validate elapsed escaped = none
after_call metadata validate elapsed unreachable = none

-- `explain_report`; none is an exception that leaves it. The clock goes on by the waits of the call.
unfoldable pub explain_report :
    {E : Type 0}
    → (ℕ → Run)
    → LlmConfig
    → Built
    → (String → ValidationEnd E)
    → Option (ExplanationResult E)
unfolding after_call
explain_report provider config (built fingerprint) validate =
    let call = call_provider provider config in
    after_call (record first_metadata { request_fingerprint = some fingerprint }) validate
      call.elapsed call.call_end
explain_report provider config context_refused validate =
    some (unavailable_result first_metadata "context_invalid" [])
explain_report provider config context_broken validate =
    some (unavailable_result first_metadata "context_error" [])
explain_report provider config context_exits validate = none
