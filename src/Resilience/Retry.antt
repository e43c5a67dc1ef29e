-- ===== src/Resilience/Retry.antt =====
-- resilience/retry.go: retry with backoff. float64 and its functions are the parameter `f`.
pub mod Delay
pub mod Attempts
pub mod Recovery
use toolops.Base.{
  ℕ, suc, zero, ◌+◌, ◌-◌, ◌*◌, ◌/◌, ◌<◌, ◌==◌, Bool, true, false, ◌&&◌, not, Option, none, some,
  if◌then◌else◌,
}
use toolops.Base.Int.{ℤ, pos, pos_part, leb_ℤ, ltb_ℤ, ◌+ℤ◌, ◌*ℤ◌, wrap64, or_default}
use toolops.Base.Time.{Duration, millisecond, second}
use toolops.Base.Float.{Float64}
use toolops.Resilience.Operation.{Err, Outcome, returned, panicked, Operation}

-- `unknown_strategy` is any other value of the integer type.
pub data BackoffStrategy : Type 0 where
  backoff_exponential backoff_linear backoff_constant unknown_strategy : BackoffStrategy

module _ (f : Float64) where
  -- OnRetry is named by whether it is set.
  pub record RetryConfig : Type 0 where
    pub max_attempts : ℤ
    pub initial_delay : Duration
    pub max_delay : Duration
    pub multiplier : f.F
    pub strategy : BackoffStrategy
    pub jitter : Bool
    pub retry_if : Option (Err → Bool)
    pub on_retry : Bool

  -- Retry holds its configuration only. RetryIf is asked about errors that are not nil, all of which
  -- its default retries.
  unfoldable pub new_retry : RetryConfig → RetryConfig
  new_retry config = record config {
    max_attempts = or_default config.max_attempts 3;
    initial_delay = or_default config.initial_delay (100 * millisecond);
    max_delay = or_default config.max_delay (30 * second);
    multiplier =
        if f.le config.multiplier (f.of_int (pos 0)) then f.of_int (pos 2) else config.multiplier;
    retry_if = elim config.retry_if [ none ↦ some (λ err. true) | some test ↦ some test ];
  }

  abbrev pub retries : RetryConfig → Err → Bool
  retries config err = elim config.retry_if [ none ↦ true | some test ↦ test err ]

  strategy_delay : RetryConfig → BackoffStrategy → ℕ → Duration
  strategy_delay config backoff_constant attempt = config.initial_delay
  strategy_delay config backoff_linear attempt = wrap64 (config.initial_delay *ℤ pos attempt)
  strategy_delay config backoff_exponential attempt = f.to_int (
      f.mul (f.of_int config.initial_delay)
        (f.pow config.multiplier (f.of_int (pos (attempt - 1)))))
  strategy_delay config unknown_strategy attempt = pos 0

  -- The delay before jitter.
  unfoldable pub capped_delay : RetryConfig → ℕ → Duration
  unfolding strategy_delay
  capped_delay config attempt =
      let delay = strategy_delay config config.strategy attempt in
      if ltb_ℤ config.max_delay delay then config.max_delay else delay

-- What Execute takes from the runtime: rand.Int64N for a positive argument, the wait for a delay or
-- the context's end (`some err` is ctx.Err()), and the callback OnRetry.
pub record Host (W : Type 0) : Type 0 where
  pub int64_n : ℕ → W → ℕ × W
  pub wait : Duration → W → Option Err × W
  pub on_retry : ℕ → Err → Duration → W → W
  pub int64_n-lt : (n : ℕ) (w : W) → 0 < n → (int64_n n w).0 < n

module _ {W : Type 0} (f : Float64) (h : Host W) (config : RetryConfig f) where
  -- rand.Int64N panics unless its argument is positive; `none` is that panic.
  pub add_jitter : Duration → W → Option Duration × W
  add_jitter delay w = if pos_part delay / 4 == 0 then (none, w) else (
    some (wrap64 (delay +ℤ pos (h.int64_n (pos_part delay / 4) w).0)),
    (h.int64_n (pos_part delay / 4) w).1,
  )

  unfoldable pub calculate_delay : ℕ → W → Option Duration × W
  unfolding add_jitter
  calculate_delay attempt w =
      let delay = capped_delay f config attempt in
      if config.jitter && ltb_ℤ (pos 0) delay then add_jitter delay w else (some delay, w)

  abbrev pub announce : ℕ → Err → Duration → W → W
  announce attempt err delay w = if config.on_retry then h.on_retry attempt err delay w else w

  -- After the wait: the context's error, or the next round.
  abbrev resume : Operation W → Option Err × W → Outcome × W
  resume next (some err, w) = (returned (some err), w)
  resume next (none, w) = next w

  abbrev pause : ℕ → Err → Operation W → Option Duration × W → Outcome × W
  pause attempt err next (none, w) = (panicked, w)
  pause attempt err next (some delay, w) = resume next (h.wait delay (announce attempt err delay w))

  -- The body of the loop after the operation; `next` is the next round.
  abbrev conclude : ℕ → (Err → Operation W) → Outcome × W → Outcome × W
  conclude attempt next (panicked, w) = (panicked, w)
  conclude attempt next (returned none, w) = (returned none, w)
  conclude attempt next (returned (some err), w) =
      if not (retries f config err)
      then (returned (some err), w)
      else if leb_ℤ config.max_attempts (pos attempt)
      then (returned (some err), w)
      else pause attempt err (next err) (calculate_delay attempt w)

  -- The loop, on the rounds that its condition leaves; `last_err` is returned after the last.
  pub rounds : ℕ → ℕ → Option Err → Operation W → Operation W
  rounds zero attempt last_err op w = (returned last_err, w)
  rounds (suc left) attempt last_err op w =
      conclude attempt (λ err. rounds left (attempt + 1) (some err) op) (op w)

  unfoldable pub execute : Operation W → Operation W
  unfolding rounds
  execute op w = rounds (pos_part config.max_attempts) 1 none op w
