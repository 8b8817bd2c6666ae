-- ===== src/Provider.antt =====
-- The call of a language model's provider (llm/provider.py), with a bounded delay and bounded tries. The
-- provider is not of this repository: what it does at each try is an argument. Durations are whole
-- milliseconds.
pub mod Bounds
pub mod Tests
use mervio.Prelude.{
  List, String, if◌then◌else◌, ℕ, Bool, true, ◌∷◌, suc, [], not, leb, ltb, false, zero, ◌&&◌, ◌||◌,
  ◌==◌, ◌*◌, ◌+◌,
}
use mervio.Json.Dump.{str_len}

-- `LLMConfig`
pub record LlmConfig : Type 0 where
  pub model : String
  pub timeout : ℕ
  pub max_retries : ℕ
  pub retry_backoff : ℕ
  pub max_output_chars : ℕ

-- `LLMConfig.__post_init__`, for a test of `str.strip` that leaves nothing.
unfoldable pub check_config : (String → Bool) → LlmConfig → Bool
check_config is_blank config =
    not (is_blank config.model)
    && (leb 1 config.timeout
        && leb config.timeout 120000
        && (leb config.max_retries 3
            && (leb config.retry_backoff 10000
                && (leb 1 config.max_output_chars && leb config.max_output_chars 200000))))

-- `usage` of a response, whose type nothing checks: a value that is false, a mapping or what else
-- `dict` takes, or a value that `dict` refuses.
pub data Usage : Type 0 where
  no_usage refused_usage : Usage
  used : List (String × ℕ) → Usage

-- `ProviderResponse`
pub record ProviderResponse : Type 0 where
  pub text : String
  pub usage : Usage

-- `ProviderError` and its subclasses.
pub data ProviderError : Type 0 where
  provider_error provider_timeout provider_unavailable provider_rate_limited : ProviderError
  provider_authentication_failed provider_refusal : ProviderError
  provider_output_too_large provider_invalid_response : ProviderError

-- `ProviderError.transient`
unfoldable pub is_transient : ProviderError → Bool
is_transient provider_timeout = true
is_transient provider_unavailable = true
is_transient provider_rate_limited = true
is_transient _ = false

-- What `generate` does: it returns a response or another value, or it raises an error of its own, another
-- exception, or one that is no `Exception`, such as SystemExit.
pub data Generated : Type 0 where
  returned : ProviderResponse → Generated
  mistyped unexpected exiting : Generated
  raised : ProviderError → Generated

-- A call of `generate`, and how long it takes.
pub record Run : Type 0 where
  pub generated : Generated
  pub took : ℕ

-- One pass through the `try` of `call_provider`.
pub data Tried : Type 0 where
  gave : ProviderResponse → Tried
  failed : ProviderError → Tried
  interrupted : Tried

unfoldable pub check_response : LlmConfig → ProviderResponse → Tried
check_response config response =
    if ltb config.max_output_chars (str_len response.text)
    then failed provider_output_too_large
    else gave response

unfoldable pub relayed : LlmConfig → Generated → Tried
unfolding check_response
relayed config (returned response) = check_response config response
relayed config mistyped = failed provider_invalid_response
relayed config unexpected = failed provider_error
relayed config exiting = interrupted
relayed config (raised error) = failed error

-- `_run_with_timeout`, and what `call_provider` makes of it.
unfoldable pub run_with_timeout : LlmConfig → Run → Tried
unfolding relayed
run_with_timeout config run =
    if leb run.took config.timeout then relayed config run.generated else failed provider_timeout

-- How long the caller waits for a try.
abbrev pub waited : LlmConfig → Run → ℕ
waited config run = if leb run.took config.timeout then run.took else config.timeout

-- How `call_provider` ends: a `ProviderCall`, an error that carries its attempts, an exception that no
-- handler takes, or the AssertionError behind the loop.
pub data CallEnd : Type 0 where
  answered : ProviderResponse → ℕ → CallEnd
  refused : ProviderError → ℕ → CallEnd
  escaped unreachable : CallEnd

-- `slept` and `elapsed` count the sleeps, and the waits with them.
pub record Called : Type 0 where
  pub call_end : CallEnd
  pub slept : List ℕ
  pub elapsed : ℕ

unfoldable pub next_try : LlmConfig → ℕ → ℕ → ℕ → Tried → Called → Called
next_try config last attempt spent (gave response) rest = record {
  call_end = answered response attempt;
  slept = [];
  elapsed = spent;
}
next_try config last attempt spent (failed error) rest =
    if not (is_transient error) || attempt == last
    then record { call_end = refused error attempt; slept = []; elapsed = spent }
    else record {
      call_end = rest.call_end;
      slept = config.retry_backoff * attempt ∷ rest.slept;
      elapsed = spent + config.retry_backoff * attempt + rest.elapsed;
    }
next_try config last attempt spent interrupted rest = record {
  call_end = escaped;
  slept = [];
  elapsed = spent;
}

-- range(first, first + count)
unfoldable pub attempts_from : ℕ → ℕ → List ℕ
attempts_from first zero = []
attempts_from first (suc count) = first ∷ attempts_from (suc first) count

-- The loop of `call_provider`.
unfoldable pub call_over : (ℕ → Run) → LlmConfig → ℕ → List ℕ → Called
unfolding next_try run_with_timeout
call_over provider config last [] = record { call_end = unreachable; slept = []; elapsed = 0 }
call_over provider config last (attempt ∷ attempts) =
    next_try config last attempt (waited config (provider attempt))
      (run_with_timeout config (provider attempt)) (call_over provider config last attempts)

-- `call_provider`
unfoldable pub call_provider : (ℕ → Run) → LlmConfig → Called
call_provider provider config =
    let last_attempt = suc config.max_retries in
    call_over provider config last_attempt (attempts_from 1 last_attempt)
