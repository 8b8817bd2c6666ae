-- ===== src/Provider/Tests.antt =====
-- Two providers.
use mervio.Prelude.{ℕ, ◌≡◌, ◌≤◌, ◌∷◌, [], refl, true, false, length, suc, zero}
use mervio.Provider.{
  LlmConfig, Run, raised, returned, provider_rate_limited, exiting, call_provider, call_over,
  next_try, attempts_from, run_with_timeout, relayed, check_response, is_transient, check_config,
  answered, escaped, refused, unexpected, provider_error, no_usage,
}
use mervio.Provider.Bounds.{call_provider-Bounded, EndsBy}

-- The defaults.
abbrev pub standard : LlmConfig
standard = record {
  model = "unconfigured";
  timeout = 30000;
  max_retries = 2;
  retry_backoff = 1000;
  max_output_chars = 20000;
}

-- It is busy, then silent for a minute, then answers.
abbrev pub busy_provider : ℕ → Run
busy_provider zero = record { generated = unexpected; took = 1 }
busy_provider (suc zero) = record { generated = raised provider_rate_limited; took = 200 }
busy_provider (suc (suc zero)) = record {
  generated = returned (record { text = "late"; usage = no_usage });
  took = 60000;
}
busy_provider (suc (suc (suc attempt))) = record {
  generated = returned (record { text = "ok"; usage = no_usage });
  took = 500;
}

busy_call : call_provider busy_provider standard ≡ (record {
  call_end = answered (record { text = "ok"; usage = no_usage }) 3;
  slept = 1000 ∷ 2000 ∷ [];
  elapsed = 33700;
})
unfolding call_provider call_over next_try attempts_from run_with_timeout relayed check_response
    is_transient
busy_call = refl

-- An exception that no handler takes leaves the call.
exiting_call :
    (call_provider (λ attempt. record { generated = exiting; took = 10 }) standard).call_end
    ≡ escaped
unfolding call_provider call_over next_try attempts_from run_with_timeout relayed
exiting_call = refl

-- Another exception is an error of the provider, and is not tried again.
unexpected_call :
    (call_provider (λ attempt. record { generated = unexpected; took = 10 }) standard).call_end
    ≡ refused provider_error 1
unfolding call_provider call_over next_try attempts_from run_with_timeout relayed is_transient
unexpected_call = refl

pub accepted : check_config (λ t. false) standard ≡ true
unfolding check_config
accepted = refl

call_provider-Bounded_example :
    EndsBy standard 1 3 (call_provider busy_provider standard).call_end
    × ((call_provider busy_provider standard).elapsed ≤ 540000)
    × (length (call_provider busy_provider standard).slept ≤ 3)
call_provider-Bounded_example = call_provider-Bounded busy_provider standard (λ t. false) accepted
