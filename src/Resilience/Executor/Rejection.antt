-- ===== src/Resilience/Executor/Rejection.antt =====
-- What a request that one pattern refuses does to the others.
use toolops.Base.{◌≡◌, ap, ◌∙◌, true, false, none, some, List}
use toolops.Base.Int.{pos, ◌<ℤ◌}
use toolops.Base.Time.{since}
use toolops.Base.Float.{Float64}
use toolops.Resilience.Operation.{returned, err_circuit_open, err_rate_limit_exceeded, Operation}
use toolops.Resilience.Circuit
use toolops.Resilience.Circuit.{State, state_open, Change}
use toolops.Resilience.Circuit.Execution.{execute_open}
use toolops.Resilience.RateLimit
use toolops.Resilience.RateLimit.Bounds.{execute_refused}
use toolops.Resilience.Bulkhead
use toolops.Resilience.Bulkhead.Execution.{execute_restores}
use toolops.Resilience.Executor.{Executor, execute, limited, isolated, guarded, retried, timed}

module _ {f : Float64} {W : Type 0} (e : Executor f W) (op : Operation W) (w : W) where
  -- A request that the rate limiter refuses, where it does not wait, reaches no other pattern: the
  -- result is ErrRateLimitExceeded and of the world only the limiter changes.
  pub execute_limited :
      (h : RateLimit.Host f W)
      → e.rate_limiter ≡ some h
      → (h.limiter.get w).config.wait_on_limit ≡ false
      → (RateLimit.allow_n f (h.now w) (pos 1) (h.limiter.get w)).0 ≡ false
      → execute e op w ≡ (
        returned (some err_rate_limit_exceeded),
        h.limiter.put (RateLimit.allow_n f (h.now w) (pos 1) (h.limiter.get w)).1 w,
      )
  unfolding execute
  execute_limited h has no_wait refused =
      ap
        (λ r.
          limited r
            (isolated e.bulkhead (guarded e.circuit_breaker (retried e.retry (timed e.timeout op))))
            w)
        has
      ∙ execute_refused f h _ w no_wait refused

-- The bulkhead and the breaker are kept in different places of the world, and the callback reaches
-- neither.
pub record IsApart {W : Type 0} (b : Bulkhead.Host W) (c : Circuit.Host W) : Type 0 where
  pub breaker-bulkhead :
      (s : Bulkhead.Bulkhead) (w : W) → c.breaker.get (b.bulkhead.put s w) ≡ c.breaker.get w
  pub now-bulkhead : (s : Bulkhead.Bulkhead) (w : W) → c.now (b.bulkhead.put s w) ≡ c.now w
  pub bulkhead-breaker :
      (s : Circuit.CircuitBreaker) (w : W) → b.bulkhead.get (c.breaker.put s w) ≡ b.bulkhead.get w
  pub bulkhead-notified :
      (l : List Change) (w : W) → b.bulkhead.get (c.notified l w) ≡ b.bulkhead.get w

-- A request that the open breaker refuses gives its slot of the bulkhead back and is counted by neither
-- as rejected; with no rate limiter, whatever the other patterns and the operation.
pub execute_open_circuit :
    {f : Float64} {W : Type 0} (e : Executor f W) (op : Operation W) (w : W) (b : Bulkhead.Host W)
    (c : Circuit.Host W)
    → IsApart b c
    → e.rate_limiter ≡ none
    → e.bulkhead ≡ some b
    → e.circuit_breaker ≡ some c
    → Bulkhead.has_room (b.bulkhead.get w) ≡ true
    → (c.breaker.get w).state ≡ state_open
    → since (c.now w) (c.breaker.get w).last_failure <ℤ (c.breaker.get w).reset_timeout
    → let after = b.bulkhead.get (execute e op w).1 in
      let before = b.bulkhead.get w in
      ((execute e op w).0 ≡ returned (some err_circuit_open))
      × (after.sem ≡ before.sem)
      × (after.active ≡ before.active)
      × (after.rejected ≡ before.rejected)
unfolding execute
execute_open_circuit e op w b c apart no_limiter has_b has_c room opened early =
    let inner = retried e.retry (timed e.timeout op) in
    let v = Bulkhead.update b (λ s. Bulkhead.count_in (Bulkhead.send s)) w in
    let shape : execute e op w ≡ Bulkhead.execute b (Circuit.execute c inner) w =
      ap (λ r. limited r (isolated e.bulkhead (guarded e.circuit_breaker inner)) w) no_limiter
      ∙ ap (λ r. isolated r (guarded e.circuit_breaker inner) w) has_b
      ∙ ap (λ r. Bulkhead.execute b (guarded r inner) w) has_c in
    let refused =
      execute_open c inner v (ap (λ s. s.state) (apart.breaker-bulkhead _ w) ∙ opened)
        (rw (apart.now-bulkhead _ w, apart.breaker-bulkhead _ w) early) in
    let (ran, sem, active, rejected) = execute_restores b (Circuit.execute c inner) w room (
      ap (λ r. b.bulkhead.get r.1) refused
      ∙ apart.bulkhead-notified _ _
      ∙ apart.bulkhead-breaker _ _) in
    (
      ap (λ r. r.0) shape ∙ ran ∙ ap (λ r. r.0) refused,
      ap (λ r. (b.bulkhead.get r.1).sem) shape ∙ sem,
      ap (λ r. (b.bulkhead.get r.1).active) shape ∙ active,
      ap (λ r. (b.bulkhead.get r.1).rejected) shape ∙ rejected,
    )
