-- ===== src/Resilience/Executor/Sources.antt =====
-- Where the errors of an executor come from, whatever patterns it has.
use toolops.Base.{◌≡◌, refl, ℕ, ◌<◌, Option, none, some, inl, inr}
use toolops.Base.Int.{pos}
use toolops.Base.Time.{Duration}
use toolops.Base.Float.{Float64}
use toolops.Resilience.Operation.{Err, err_circuit_open, returned, Operation}
use toolops.Resilience.Circuit
use toolops.Resilience.Retry
use toolops.Resilience.Retry.Attempts.{execute-HasSource}
use toolops.Resilience.RateLimit
use toolops.Resilience.Bulkhead
use toolops.Resilience.Timeout
use toolops.Resilience.Executor.{Executor, execute, limited, isolated, guarded, retried, timed}

module _ {f : Float64} {W : Type 0} (e : Executor f W) (op : Operation W) where
  -- The operation, or a pattern that the executor has: its own error, or the end of the context in it.
  pub data Source : Err → Type 0 where
    operation : {err : Err} (w : W) → (op w).0 ≡ returned (some err) → Source err
    limiter :
        {err : Err} (h : RateLimit.Host f W)
        → e.rate_limiter ≡ some h
        → RateLimit.Sources.Refusal f h err
        → Source err
    bulkhead :
        {err : Err} (h : Bulkhead.Host W)
        → e.bulkhead ≡ some h
        → Bulkhead.Sources.Refusal h err
        → Source err
    breaker : (h : Circuit.Host W) → e.circuit_breaker ≡ some h → Source err_circuit_open
    retry :
        {err : Err} (h : Retry.Host W) (config : Retry.RetryConfig f)
        → e.retry ≡ some (h, config)
        → (d : Duration) (w : W) → (h.wait d w).0 ≡ some err
        → Source err
    timeout :
        {err : Err} (h : Timeout.Host W) (t : Timeout.TimeoutConfig)
        → e.timeout ≡ some (h, t)
        → Timeout.Sources.Expiry h err
        → Source err

  abbrev IsSourced : Operation W → Type 0
  IsSourced o = (w : W) (err : Err) → (o w).0 ≡ returned (some err) → Source err

  timed-IsSourced :
      (t : Option (Timeout.Host W × Timeout.TimeoutConfig)) → e.timeout ≡ t → IsSourced (timed t op)
  timed-IsSourced none has w err is = operation w is
  timed-IsSourced (some (h, t)) has w err is =
      Timeout.Sources.execute-sourced h Source op (λ v x ran. operation v ran)
        (λ x own. timeout h t has own) t w err is

  -- A retry makes at least one attempt.
  abbrev pub Attempts : Option (Retry.Host W × Retry.RetryConfig f) → Type 0
  Attempts none = Unit
  Attempts (some (h, config)) = (limit : ℕ) × (config.max_attempts ≡ pos limit) × (0 < limit)

  retried-IsSourced :
      (r : Option (Retry.Host W × Retry.RetryConfig f)) (o : Operation W)
      → e.retry ≡ r
      → Attempts r
      → IsSourced o
      → IsSourced (retried r o)
  retried-IsSourced none o has attempts sourced w err is = sourced w err is
  retried-IsSourced (some (h, config)) o has (limit, is_limit, positive) sourced w err is =
      elim (execute-HasSource f h config o limit w err is_limit positive is) [
        | inl (v, ran) ↦ sourced v err ran
        | inr (d, v, ended) ↦ retry h config has d v ended
      ]

  guarded-IsSourced :
      (c : Option (Circuit.Host W)) (o : Operation W)
      → e.circuit_breaker ≡ c
      → IsSourced o
      → IsSourced (guarded c o)
  guarded-IsSourced none o has sourced = sourced
  guarded-IsSourced (some h) o has sourced =
      Circuit.Sources.execute-sourced h Source o sourced (breaker h has)

  isolated-IsSourced :
      (b : Option (Bulkhead.Host W)) (o : Operation W)
      → e.bulkhead ≡ b
      → IsSourced o
      → IsSourced (isolated b o)
  isolated-IsSourced none o has sourced = sourced
  isolated-IsSourced (some h) o has sourced =
      Bulkhead.Sources.execute-sourced h Source o sourced (λ err own. bulkhead h has own)

  limited-IsSourced :
      (l : Option (RateLimit.Host f W)) (o : Operation W)
      → e.rate_limiter ≡ l
      → IsSourced o
      → IsSourced (limited l o)
  limited-IsSourced none o has sourced = sourced
  limited-IsSourced (some h) o has sourced =
      RateLimit.Sources.execute-sourced f h Source o sourced (λ err own. limiter h has own)

  -- Whatever patterns an executor has, an error that it returns was returned by the operation, or is the own
  -- error of a pattern that it has, or of a context that ended in one. (A retry has a positive MaxAttempts.)
  pub execute-Source :
      (w : W) (err : Err) → Attempts e.retry → (execute e op w).0 ≡ returned (some err) → Source err
  unfolding execute
  execute-Source w err attempts is =
      limited-IsSourced e.rate_limiter _ refl
        (isolated-IsSourced e.bulkhead _ refl (
          guarded-IsSourced e.circuit_breaker _ refl
            (retried-IsSourced e.retry _ refl attempts (timed-IsSourced e.timeout refl))))
        w err is
