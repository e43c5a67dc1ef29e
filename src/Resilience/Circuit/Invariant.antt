-- ===== src/Resilience/Circuit/Invariant.antt =====
-- The breaker's invariant, for every method and for every interleaving of calls: the mutex makes
-- each method one step, and a request in flight is a `before` whose `after` may come at any time.
use toolops.Base.{◌≡◌, Option, arith, List, [], ◌∷◌, ◌++◌}
use toolops.Base.Int.{pos, ◌≤ℤ◌, ◌<ℤ◌}
use toolops.Base.Time.{Instant}
use toolops.Resilience.Operation.{Err}
use toolops.Resilience.Circuit.{
  state_closed, CircuitBreaker, CircuitBreakerConfig, Change, new_circuit_breaker, before_request,
  after_request, state_of, reset, metrics,
}

pub record IsValid (cb : CircuitBreaker) : Type 0 where
  pub max_failures_pos : pos 0 <ℤ cb.max_failures
  pub reset_timeout_pos : pos 0 <ℤ cb.reset_timeout
  pub max_requests_pos : pos 0 <ℤ cb.half_open_max_requests
  pub failures_capped : pos cb.failures ≤ℤ cb.max_failures
  pub closed_below_max : cb.state ≡ state_closed → pos cb.failures <ℤ cb.max_failures
  pub probes_capped : pos cb.half_open_count ≤ℤ cb.half_open_max_requests
  pub successes_zero : cb.successes ≡ 0

pub new-IsValid : (config : CircuitBreakerConfig) → IsValid (new_circuit_breaker config)
unfolding new_circuit_breaker
new-IsValid config = ground arith

-- A call that takes the breaker's mutex.
pub data Call : Type 0 where
  before : Instant → Call
  after : Instant → Option Err → Call
  read_state : Instant → Call
  read_metrics : Instant → Call
  reset_all : Call

unfoldable pub call : Call → CircuitBreaker → CircuitBreaker × List Change
call (before now) cb = let (cb', err, changes) = before_request now cb in (cb', changes)
call (after now err) cb = after_request now err cb
call (read_state now) cb = let (cb', s, changes) = state_of now cb in (cb', changes)
call (read_metrics now) cb = let (cb', m, changes) = metrics now cb in (cb', changes)
call reset_all cb = reset cb

pub call-IsValid : (c : Call) (cb : CircuitBreaker) → IsValid cb → IsValid (call c cb).0
unfolding call before_request after_request state_of metrics reset
call-IsValid (before now) cb v = ground arith
call-IsValid (after now err) cb v = ground arith
call-IsValid (read_state now) cb v = ground arith
call-IsValid (read_metrics now) cb v = ground arith
call-IsValid reset_all cb v = ground arith

-- Any calls, by any goroutines, in any order, with all the callback's calls.
unfoldable pub calls : List Call → CircuitBreaker → CircuitBreaker × List Change
calls [] cb = (cb, [])
calls (c ∷ cs) cb =
    let (cb', changes) = call c cb in let (cb'', later) = calls cs cb' in (cb'', changes ++ later)

calls-IsValid : (cs : List Call) (cb : CircuitBreaker) → IsValid cb → IsValid (calls cs cb).0
unfolding calls
calls-IsValid [] cb v = v
calls-IsValid (c ∷ cs) cb v = calls-IsValid cs (call c cb).0 (call-IsValid c cb v)

-- Whatever calls a new breaker takes, in whatever order the requests end, its invariant holds: the
-- counters stay within their limits, and a closed breaker is below its limit of failures.
pub calls_new-IsValid :
    (config : CircuitBreakerConfig) (cs : List Call)
    → IsValid (calls cs (new_circuit_breaker config)).0
calls_new-IsValid config cs = calls-IsValid cs (new_circuit_breaker config) (new-IsValid config)
