-- ===== src/Resilience/Executor.antt =====
-- resilience/executor.go: the patterns composed around an operation.
pub mod Rejection
pub mod Sources
pub mod Recovery
use toolops.Base.{◌≡◌, Option, none, some, List, [], ◌∷◌}
use toolops.Base.Int.{ℤ}
use toolops.Base.Time.{Duration}
use toolops.Base.Float.{Float64}
use toolops.Resilience.Operation.{Operation}
use toolops.Resilience.Circuit
use toolops.Resilience.Retry
use toolops.Resilience.RateLimit
use toolops.Resilience.Bulkhead
use toolops.Resilience.Timeout

-- A pattern that keeps state is named by its place in the world.
pub record Executor (f : Float64) (W : Type 0) : Type 0 where
  pub circuit_breaker : Option (Circuit.Host W)
  pub retry : Option (Retry.Host W × Retry.RetryConfig f)
  pub rate_limiter : Option (RateLimit.Host f W)
  pub bulkhead : Option (Bulkhead.Host W)
  pub timeout : Option (Timeout.Host W × Timeout.TimeoutConfig)

module _ {f : Float64} {W : Type 0} where
  unfoldable pub with_circuit_breaker : Circuit.Host W → Executor f W → Executor f W
  with_circuit_breaker cb e = record e { circuit_breaker = some cb }

  unfoldable pub with_retry : Retry.Host W × Retry.RetryConfig f → Executor f W → Executor f W
  with_retry r e = record e { retry = some r }

  unfoldable pub with_rate_limiter : RateLimit.Host f W → Executor f W → Executor f W
  with_rate_limiter rl e = record e { rate_limiter = some rl }

  unfoldable pub with_bulkhead : Bulkhead.Host W → Executor f W → Executor f W
  with_bulkhead b e = record e { bulkhead = some b }

  unfoldable pub with_timeout : Timeout.Host W → Duration → Executor f W → Executor f W
  with_timeout h timeout e = record e {
    timeout = some (h, Timeout.new_timeout (record { timeout = timeout }));
  }

  unfoldable pub with_timeout_config :
      Timeout.Host W × Timeout.TimeoutConfig → Executor f W → Executor f W
  with_timeout_config t e = record e { timeout = some t }

  pub apply_options : List (Executor f W → Executor f W) → Executor f W → Executor f W
  apply_options [] e = e
  apply_options (opt ∷ opts) e = apply_options opts (opt e)

  unfoldable pub new_executor : List (Executor f W → Executor f W) → Executor f W
  unfolding apply_options
  new_executor opts = apply_options opts (record {
    circuit_breaker = none;
    retry = none;
    rate_limiter = none;
    bulkhead = none;
    timeout = none;
  })

module _ {W : Type 0} where
  abbrev pub timed : Option (Timeout.Host W × Timeout.TimeoutConfig) → Operation W → Operation W
  timed none op = op
  timed (some (h, t)) op = Timeout.execute h t op

  abbrev guarded : Option (Circuit.Host W) → Operation W → Operation W
  guarded none op = op
  guarded (some h) op = Circuit.execute h op

  abbrev isolated : Option (Bulkhead.Host W) → Operation W → Operation W
  isolated none op = op
  isolated (some h) op = Bulkhead.execute h op

module _ {f : Float64} {W : Type 0} where
  abbrev retried : Option (Retry.Host W × Retry.RetryConfig f) → Operation W → Operation W
  retried none op = op
  retried (some (h, r)) op = Retry.execute f h r op

  abbrev limited : Option (RateLimit.Host f W) → Operation W → Operation W
  limited none op = op
  limited (some h) op = RateLimit.execute f h op

  unfoldable pub execute : Executor f W → Operation W → Operation W
  execute e op =
      limited e.rate_limiter
        (isolated e.bulkhead (guarded e.circuit_breaker (retried e.retry (timed e.timeout op))))
