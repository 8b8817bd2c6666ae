-- ===== src/Explanation/Tests.antt =====
-- The explanation by a provider that answers at its third try.
use mervio.Prelude.{
  ℕ, ◌≡◌, ◌∷◌, [], refl, true, false, none, some, String, str_eq, if-elim, zero, suc, if◌then◌else◌,
}
use mervio.Provider.{
  call_provider, call_over, next_try, attempts_from, run_with_timeout, relayed, check_response,
  is_transient, raised, provider_refusal,
}
use mervio.Provider.Tests.{standard, busy_provider, accepted}
use mervio.Explanation.{
  ValidationEnd, valid, rejected, built, ExplanationResult, explain_report, after_call,
  after_validation, unavailable_result,
}
use mervio.Explanation.Survival.{explain_report-Survives, Decides, Faithful, Raises}

-- A validation that takes one text.
abbrev only_ok : String → ValidationEnd String
only_ok text = if str_eq text "ok" then valid text else rejected ("unsupported" ∷ [])

only_ok-Decides : (text : String) → Decides (only_ok text)
only_ok-Decides text = if-elim Decides (str_eq text "ok") (λ e. tt) (λ e. tt)

busy_provider-Raises : (n : ℕ) → Raises (busy_provider n).generated
busy_provider-Raises zero = tt
busy_provider-Raises (suc zero) = tt
busy_provider-Raises (suc (suc zero)) = tt
busy_provider-Raises (suc (suc (suc n))) = tt

explained :
    explain_report busy_provider standard (built "f1") only_ok
    ≡ some (record {
      completed = true;
      explanation = some "ok";
      error_code = none;
      issues = [];
      metadata = record {
        request_fingerprint = some "f1";
        attempts = 3;
        latency_ms = some 33700;
        usage = none;
      };
    })
unfolding explain_report after_call after_validation call_provider call_over next_try attempts_from
    run_with_timeout relayed check_response is_transient
explained = refl

-- A refusal is not tried again.
not_explained :
    explain_report
      (λ n. record { generated = raised provider_refusal; took = 10 })
      standard
      (built "f1")
      only_ok
    ≡ some (
        unavailable_result
          (record {
            request_fingerprint = some "f1";
            attempts = 1;
            latency_ms = some 10;
            usage = none;
          })
          "provider_refusal"
          [])
unfolding explain_report after_call after_validation call_provider call_over next_try attempts_from
    run_with_timeout relayed is_transient
not_explained = refl

explain_report-Survives_example :
    (result : ExplanationResult String) × (explain_report busy_provider standard
        (built "f1")
        only_ok
      ≡ some result)
    × Faithful standard only_ok result
explain_report-Survives_example =
    explain_report-Survives busy_provider standard (λ t. false) (built "f1") only_ok accepted
      busy_provider-Raises tt only_ok-Decides
