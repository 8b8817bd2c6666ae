-- ===== src/Provider/Bounds.antt =====
-- The bounds of a call: its tries, its answer and its time.
use mervio.Prelude.{
  ℕ, ◌≡◌, ◌≤◌, ◌+◌, ◌*◌, ◌<◌, suc, zero, true, arith, Bool, String, length, if-elim, ltb, leb, not,
  ◌||◌, [], ◌==◌, refl,
}
use mervio.Json.Dump.{str_len}
use mervio.Provider.{
  LlmConfig, Run, Tried, gave, failed, interrupted, CallEnd, answered, refused, escaped,
  unreachable, Called, call_provider, call_over, next_try, attempts_from, run_with_timeout, relayed,
  check_response, is_transient, waited, check_config, Generated, returned, mistyped, unexpected,
  exiting, raised,
}

-- A try gives no text that is too long.
abbrev pub Fits : LlmConfig → Tried → Type 0
Fits config (gave response) = str_len response.text ≤ config.max_output_chars
Fits config (failed error) = Unit
Fits config interrupted = Unit

relayed-Fits : (config : LlmConfig) (g : Generated) → Fits config (relayed config g)
unfolding relayed check_response
relayed-Fits config (returned response) =
    if-elim (Fits config) (ltb config.max_output_chars (str_len response.text)) (λ e. tt)
      (λ e. ground (arith, e))
relayed-Fits config mistyped = tt
relayed-Fits config unexpected = tt
relayed-Fits config exiting = tt
relayed-Fits config (raised error) = tt

run_with_timeout-Fits : (config : LlmConfig) (run : Run) → Fits config (run_with_timeout config run)
unfolding run_with_timeout
run_with_timeout-Fits config run =
    if-elim (Fits config) (leb run.took config.timeout) (λ e. relayed-Fits config run.generated)
      (λ e. tt)

-- How a call may end that tries from `first` to `last`: an answer fits, an error is final or the last,
-- and the assertion is not reached.
abbrev pub EndsBy : LlmConfig → ℕ → ℕ → CallEnd → Type 0
EndsBy config first last (answered response attempts) =
    (first ≤ attempts) × (attempts ≤ last) × (str_len response.text ≤ config.max_output_chars)
EndsBy config first last (refused error attempts) =
    (first ≤ attempts) × (attempts ≤ last) × (is_transient error ≡ true → attempts ≡ last)
EndsBy config first last escaped = Unit
EndsBy config first last unreachable = ⊥

weaken_end :
    (config : LlmConfig) (first last : ℕ) (e : CallEnd)
    → EndsBy config (suc first) last e
    → EndsBy config first last e
weaken_end config first last (answered r n) h = (ground (arith, h), h.1, h.2)
weaken_end config first last (refused r n) h = (ground (arith, h), h.1, h.2)
weaken_end config first last escaped h = tt
weaken_end config first last unreachable h = h

-- The longest time of `more` tries after that of number `first`.
abbrev pub longest : LlmConfig → ℕ → ℕ → ℕ
longest config first zero = config.timeout
longest config first (suc more) =
    config.timeout + config.retry_backoff * first + longest config (suc first) more

waited_bounded : (config : LlmConfig) (run : Run) → waited config run ≤ config.timeout
waited_bounded config run = ground arith

-- What is kept of a call that tries from `first` to `last`, `more` times after the first.
abbrev pub Bounded : LlmConfig → ℕ → ℕ → ℕ → Called → Type 0
Bounded config first last more call =
    EndsBy config first last call.call_end
    × (call.elapsed ≤ longest config first more)
    × (length call.slept ≤ more)

next_at_last :
    (config : LlmConfig) (last spent : ℕ) (t : Tried) (rest : Called)
    → Fits config t
    → spent ≤ config.timeout
    → Bounded config last last 0 (next_try config last last spent t rest)
unfolding next_try
next_at_last config last spent (gave response) rest fits h =
    ((ground arith, ground arith, fits), h, ground arith)
next_at_last config last spent (failed error) rest fits h =
    if-elim (Bounded config last last 0) (not (is_transient error) || last == last)
      (λ e. ((ground arith, ground arith, λ t. refl), h, ground arith))
      (λ e. absurd (ground (arith, e)))
next_at_last config last spent interrupted rest fits h = (tt, h, ground arith)

next_before_last :
    (config : LlmConfig) (first last more spent : ℕ) (t : Tried) (rest : Called)
    → Fits config t
    → first < last
    → spent ≤ config.timeout
    → Bounded config (suc first) last more rest
    → Bounded config first last (suc more) (next_try config last first spent t rest)
unfolding next_try
next_before_last config first last more spent (gave response) rest fits lt h r =
    ((ground arith, ground (arith, lt), fits), omega (arith, h), ground arith)
next_before_last config first last more spent (failed error) rest fits lt h r =
    if-elim (Bounded config first last (suc more)) (not (is_transient error) || first == last)
      (λ e. (
        (ground arith, ground (arith, lt), λ t. absurd (ground (arith, e, lt, t))),
        omega (arith, h),
        ground arith,
      ))
      (λ e.
        (weaken_end config first last rest.call_end r.0, omega (arith, h, r), ground (arith, r)))
next_before_last config first last more spent interrupted rest fits lt h r =
    (tt, omega (arith, h), ground arith)

call_over-Bounded :
    (provider : ℕ → Run) (config : LlmConfig) (more first last : ℕ)
    → last ≡ first + more
    → Bounded config first last more
        (call_over provider config last (attempts_from first (suc more)))
unfolding call_over attempts_from
call_over-Bounded provider config zero first last e =
    let same : last ≡ first = ground (arith, e) in
    rw same (
      next_at_last config first (waited config (provider first))
        (run_with_timeout config (provider first)) (call_over provider config first [])
        (run_with_timeout-Fits config (provider first)) (waited_bounded config (provider first)))
call_over-Bounded provider config (suc more) first last e =
    next_before_last config first last more (waited config (provider first))
      (run_with_timeout config (provider first)) _ (run_with_timeout-Fits config (provider first))
      (ground (arith, e)) (waited_bounded config (provider first))
      (call_over-Bounded provider config more (suc first) last (ground (arith, e)))

longest_bounded :
    (config : LlmConfig) (more : ℕ)
    → more ≤ 3
    → config.timeout ≤ 120000
    → config.retry_backoff ≤ 10000
    → longest config 1 more ≤ 540000
longest_bounded config zero h t b = omega (arith, t)
longest_bounded config (suc zero) h t b = omega (arith, t, b)
longest_bounded config (suc (suc zero)) h t b = omega (arith, t, b)
longest_bounded config (suc (suc (suc zero))) h t b = omega (arith, t, b)
longest_bounded config (suc (suc (suc (suc more)))) h t b = absurd (omega (arith, h))

-- Whatever the provider does, a call under a configuration that LLMConfig accepts ends within nine
-- minutes: four tries of two minutes, and sleeps of at most ten, twenty and thirty seconds. It tries at
-- most four times. An answer is as short as the configuration asks, an error that is worth another try
-- is raised after the last try only, and the assertion behind the loop is not reached.
pub call_provider-Bounded :
    (provider : ℕ → Run) (config : LlmConfig) (is_blank : String → Bool)
    → check_config is_blank config ≡ true
    → EndsBy config 1 (suc config.max_retries) (call_provider provider config).call_end
      × ((call_provider provider config).elapsed ≤ 540000)
      × (length (call_provider provider config).slept ≤ 3)
unfolding call_provider check_config
call_provider-Bounded provider config is_blank h =
    let b =
      call_over-Bounded provider config config.max_retries 1 (suc config.max_retries)
        (ground arith) in
    let few : config.max_retries ≤ 3 = ground (arith, h) in
    let longest_call =
      longest_bounded config config.max_retries few (ground (arith, h)) (ground (arith, h)) in
    (b.0, omega (arith, b, longest_call), omega (arith, b, few))
