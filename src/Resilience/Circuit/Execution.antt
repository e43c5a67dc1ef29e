-- ===== src/Resilience/Circuit/Execution.antt =====
-- Execute: when the operation runs, and what its end makes of the breaker.
use toolops.Base.{◌≡◌, refl, ap, ◌∙◌, Option, none, some, arith, List, [], if◌then◌else◌}
use toolops.Base.Int.{pos, ◌≤ℤ◌, ◌<ℤ◌}
use toolops.Base.Time.{Instant, since}
use toolops.Resilience.Operation.{Err, err_circuit_open, returned, panicked, Operation}
use toolops.Resilience.Circuit.{
  state_closed, state_open, state_half_open, CircuitBreaker, Change, Host, before_request,
  after_request, finish, proceed, execute, notify,
}
use toolops.Resilience.Circuit.Recovery.{
  before_request_open, before_request_exhausted, before_request_elapsed, after_request_probe,
  probing,
}

module _ {W : Type 0} (h : Host W) where
  open h use {breaker, now, notified}

  -- While the breaker is open and ResetTimeout has not passed, Execute returns ErrCircuitOpen; what
  -- the operation would do to the world does not happen.
  pub execute_open :
      (op : Operation W) (w : W)
      → (breaker.get w).state ≡ state_open
      → since (now w) (breaker.get w).last_failure <ℤ (breaker.get w).reset_timeout
      → execute h op w
        ≡ (returned (some err_circuit_open), notified [] (breaker.put (breaker.get w) w))
  unfolding execute
  execute_open op w opened early =
      ap (proceed h op w) (before_request_open (now w) (breaker.get w) opened early)

  -- An admitted request returns what the operation returned, and ends in `afterRequest`.
  pub execute_admitted :
      (op : Operation W) (w w' : W) (cb : CircuitBreaker) (changes : List Change) (err : Option Err)
      → before_request (now w) (breaker.get w) ≡ (cb, none, changes)
      → op (notified changes (breaker.put cb w)) ≡ (returned err, w')
      → execute h op w ≡ (
        returned err,
        notified
            (after_request (now w') err (breaker.get w')).1
            (breaker.put (after_request (now w') err (breaker.get w')).0 w'),
      )
  unfolding execute
  execute_admitted op w w' cb changes err admitted ran =
      ap (proceed h op w) admitted ∙ ap (finish h) ran

  -- An operation that panics leaves its request uncounted: `afterRequest` does not run.
  pub execute_panicked :
      (op : Operation W) (w w' : W) (cb : CircuitBreaker) (changes : List Change)
      → before_request (now w) (breaker.get w) ≡ (cb, none, changes)
      → op (notified changes (breaker.put cb w)) ≡ (panicked, w')
      → execute h op w ≡ (panicked, w')
  unfolding execute
  execute_panicked op w w' cb changes admitted ran =
      ap (proceed h op w) admitted ∙ ap (finish h) ran

  -- What the operation of a probe starts with.
  abbrev pub probed : W → W
  probed w =
      let cb = breaker.get w in
      notified (notify cb.on_state_change state_open state_half_open) (breaker.put (probing cb) w)

  module _ (op : Operation W) (w w' : W) (opened : (breaker.get w).state ≡ state_open)
      (late : (breaker.get w).reset_timeout ≤ℤ since (now w) (breaker.get w).last_failure)
      (same : breaker.get w' ≡ breaker.get (probed w)) where
    get-probed : breaker.get w' ≡ probing (breaker.get w)
    get-probed = same ∙ h.get-notified _ _ ∙ breaker.get-put _ _

    -- With a positive HalfOpenMaxRequests, the first request after ResetTimeout decides where its
    -- operation returns: if the result counts as a failure the breaker is
    -- open again from that moment, otherwise it is closed with its count of failures cleared. Other
    -- goroutines are taken to leave the breaker alone while the operation runs.
    pub execute_probe :
        (err : Option Err)
        → pos 0 <ℤ (breaker.get w).half_open_max_requests
        → op (probed w) ≡ (returned err, w')
        → breaker.get (execute h op w).1 ≡ (
            if (breaker.get w).is_failure err
            then record (probing (breaker.get w)) { state = state_open; last_failure = now w' }
            else record (probing (breaker.get w)) {
              state = state_closed;
              failures = 0;
              successes = 0;
            })
    execute_probe err allowed ran =
        ap (λ r. breaker.get r.1)
          (execute_admitted op w w' _ _ err
            (before_request_elapsed (now w) (breaker.get w) opened late allowed) ran)
        ∙ h.get-notified _ _
        ∙ breaker.get-put _ _
        ∙ ap (λ b. (after_request (now w') err b).0) get-probed
        ∙ after_request_probe (now w') err (breaker.get w)

    -- If that one request panics and HalfOpenMaxRequests is 1, every later request is rejected at
    -- whatever time it comes, though the operation would succeed.
    pub execute_panic_locks :
        (breaker.get w).half_open_max_requests ≡ pos 1
        → op (probed w) ≡ (panicked, w')
        → (later : Instant)
        → before_request later (breaker.get (execute h op w).1)
          ≡ (breaker.get (execute h op w).1, some err_circuit_open, [])
    execute_panic_locks one ran later =
        let final : breaker.get (execute h op w).1 ≡ probing (breaker.get w) =
          ap (λ r. breaker.get r.1)
            (execute_panicked op w w' _ _
              (before_request_elapsed (now w) (breaker.get w) opened late (ground arith)) ran)
          ∙ get-probed in
        rw final (before_request_exhausted later (probing (breaker.get w)) refl (ground arith))
