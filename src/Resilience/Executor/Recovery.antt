-- ===== src/Resilience/Executor/Recovery.antt =====
-- The retry inside the breaker: what the breaker sees of a request that is tried again.
use toolops.Base.{
  List, ℕ, ◌+◌, ◌≤◌, ◌<◌, ◌≡◌, refl, ap, ◌∙◌, true, false, Option, none, some, [], arith,
}
use toolops.Base.Int.{pos, ◌≤ℤ◌}
use toolops.Base.Float.{Float64}
use toolops.Resilience.Operation.{Err, Outcome, returned, panicked, Operation}
use toolops.Resilience.Circuit
use toolops.Resilience.Circuit.{
  State, state_closed, CircuitBreaker, Change, before_request, after_request, finish, proceed,
}
use toolops.Resilience.Retry
use toolops.Resilience.Retry.{capped_delay}
use toolops.Resilience.Retry.Recovery.{IsTransient, Keeps, execute_recovers, execute_keeps}
use toolops.Resilience.Executor.{Executor, execute, limited, isolated, guarded, retried, timed}

before_request_closed :
    (now : ℕ) (cb : CircuitBreaker)
    → cb.state ≡ state_closed
    → before_request now cb ≡ (cb, none, [])
unfolding before_request
before_request_closed now cb closed = ground (arith, closed)

after_request_success :
    (now : ℕ) (cb : CircuitBreaker)
    → cb.state ≡ state_closed
    → cb.is_failure none ≡ false
    → (after_request now none cb).0 ≡ record cb { failures = 0 }
unfolding after_request
after_request_success now cb closed fine = ground (arith, closed, fine)

after_request_counts :
    (now : ℕ) (err : Option Err) (cb : CircuitBreaker)
    → (after_request now err cb).0.failures ≤ cb.failures + 1
unfolding after_request
after_request_counts now err cb = ground arith

module _ {W : Type 0} (c : Circuit.Host W) where
  open c use {breaker, now, notified}

  -- The world in which the operation of an admitted request starts, the breaker closed.
  abbrev pub entered : W → W
  entered w = notified [] (breaker.put (breaker.get w) w)

  execute_closed :
      (op : Operation W) (w : W)
      → (breaker.get w).state ≡ state_closed
      → Circuit.execute c op w ≡ finish c (op (entered w))
  unfolding Circuit.execute
  execute_closed op w closed =
      ap (proceed c op w) (before_request_closed (now w) (breaker.get w) closed)

  get-entered : (w : W) → breaker.get (entered w) ≡ breaker.get w
  get-entered w = c.get-notified _ _ ∙ breaker.get-put _ _

  finish-counts :
      (r : Outcome × W) → (breaker.get (finish c r).1).failures ≤ (breaker.get r.1).failures + 1
  unfolding finish
  finish-counts (panicked, w) = omega arith
  finish-counts (returned err, w) =
      rw (c.get-notified, breaker.get-put) (after_request_counts (now w) err (breaker.get w))

  finish-success :
      (r : Outcome × W)
      → r.0 ≡ returned none
      → (breaker.get r.1).state ≡ state_closed
      → (breaker.get r.1).is_failure none ≡ false
      → ((finish c r).0 ≡ returned none)
        × (breaker.get (finish c r).1 ≡ record (breaker.get r.1) { failures = 0 })
  unfolding finish
  finish-success (o, w) is closed fine = rw is (
    refl,
    c.get-notified _ _
        ∙ breaker.get-put _ _
        ∙ after_request_success (now w) (breaker.get w) closed fine,
  )

-- An executor with the retry inside the breaker, and neither limiter nor bulkhead.
pub record IsGuardedRetry {f : Float64} {W : Type 0} (e : Executor f W) (c : Circuit.Host W)
    (r : Retry.Host W) (config : Retry.RetryConfig f) : Type 0 where
  pub no_limiter : e.rate_limiter ≡ none
  pub no_bulkhead : e.bulkhead ≡ none
  pub has_breaker : e.circuit_breaker ≡ some c
  pub has_retry : e.retry ≡ some (r, config)

module _ {f : Float64} {W : Type 0} (e : Executor f W) (op : Operation W) (c : Circuit.Host W)
    (r : Retry.Host W) (config : Retry.RetryConfig f) (shape : IsGuardedRetry e c r config)
    (keeps : Keeps f r config (timed e.timeout op) c.breaker.get) where
  open c use {breaker}

  execute-shape :
      (w : W) → execute e op w ≡ Circuit.execute c (Retry.execute f r config (timed e.timeout op)) w
  unfolding execute
  execute-shape w =
      let tried = retried e.retry (timed e.timeout op) in
      ap (λ l. limited l (isolated e.bulkhead (guarded e.circuit_breaker tried)) w) shape.no_limiter
      ∙ ap (λ b. isolated b (guarded e.circuit_breaker tried) w) shape.no_bulkhead
      ∙ ap (λ h. guarded h tried w) shape.has_breaker
      ∙ ap (λ h. Circuit.execute c (retried h (timed e.timeout op)) w) shape.has_retry

  -- What the breaker is when the attempts have ended.
  get-tried :
      (w : W)
      → breaker.get (Retry.execute f r config (timed e.timeout op) (entered c w)).1 ≡ breaker.get w
  get-tried w =
      execute_keeps f r config (timed e.timeout op) (breaker.get) keeps (entered c w)
      ∙ get-entered c w

  -- With the retry inside the breaker, one call of a closed executor adds at most one failure to the
  -- breaker, however many attempts failed, where the attempts leave the breaker alone.
  pub execute-failures :
      (w : W)
      → (breaker.get w).state ≡ state_closed
      → (breaker.get (execute e op w).1).failures ≤ (breaker.get w).failures + 1
  execute-failures w closed =
      rw
        (
          execute-shape w,
          execute_closed c (Retry.execute f r config (timed e.timeout op)) w closed,
          ← get-tried w,
        )
        (finish-counts c (Retry.execute f r config (timed e.timeout op) (entered c w)))

  -- An operation that recovers within MaxAttempts is a success of the executor, and its failed attempts
  -- are not counted: the closed breaker keeps its state and its count of failures is cleared.
  pub execute_uncounted :
      (limit : ℕ) (left : W → ℕ) (w : W)
      → config.max_attempts ≡ pos limit
      → IsTransient f r config (timed e.timeout op) left
      → ((k : ℕ) → config.jitter ≡ true → pos 4 ≤ℤ capped_delay f config k)
      → ((cb : CircuitBreaker) (l : List Change) (v : W)
          → left (c.notified l (breaker.put cb v)) ≡ left v)
      → left w < limit
      → (breaker.get w).state ≡ state_closed
      → (breaker.get w).is_failure none ≡ false
      → ((execute e op w).0 ≡ returned none)
        × (breaker.get (execute e op w).1 ≡ record (breaker.get w) { failures = 0 })
  execute_uncounted limit left w is_limit transient enough left-entered fits closed fine =
      let tried : Operation W = Retry.execute f r config (timed e.timeout op) in
      let whole = execute-shape w ∙ execute_closed c tried w closed in
      let (ok, cleared) =
        finish-success c (tried (entered c w))
          (execute_recovers f r config (timed e.timeout op) limit left (entered c w) is_limit
            transient enough (rw left-entered fits))
          (ap (λ b. b.state) (get-tried w) ∙ closed)
          (ap (λ b. b.is_failure none) (get-tried w) ∙ fine) in
      (
        ap (λ x. x.0) whole ∙ ok,
        ap (λ x. breaker.get x.1) whole
            ∙ cleared
            ∙ ap (λ (b : CircuitBreaker). record b { failures = 0 }) (get-tried w),
      )
