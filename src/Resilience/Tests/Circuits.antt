-- ===== src/Resilience/Tests/Circuits.antt =====
-- The circuit breaker's theorems at concrete inputs.
use toolops.Base.{◌≡◌, refl, true, Option, none, some, List, [], ◌∷◌, arith}
use toolops.Base.Int.{pos}
use toolops.Base.Time.{Instant, since}
use toolops.Resilience.Operation.{Err, err_circuit_open, other}
use toolops.Resilience.Circuit.{
  state_closed, state_open, CircuitBreakerConfig, CircuitBreaker, Host, new_circuit_breaker,
  before_request, execute,
}
use toolops.Resilience.Circuit.Invariant.{
  IsValid, Call, before, after, read_state, reset_all, calls, calls_new-IsValid,
}
use toolops.Resilience.Circuit.Diagram.{IsPath, calls-IsPath}
use toolops.Resilience.Circuit.Recovery.{probing}
use toolops.Resilience.Circuit.Execution.{execute_probe, execute_panic_locks}
use toolops.Resilience.Tests.Doubles.{failing, crashing}

abbrev two_failures : CircuitBreakerConfig
two_failures = record {
  max_failures = pos 2;
  reset_timeout = pos 10;
  half_open_max_requests = pos 1;
  on_state_change = true;
  is_failure = none;
}

-- It opens, takes a probe at 12, which fails, and another at 30, which succeeds, and is reset.
abbrev history : List Call
history =
    before 1
    ∷ after 1 (some (other 0))
    ∷ after 2 (some (other 0))
    ∷ before 12
    ∷ after 12 (some (other 0))
    ∷ before 30
    ∷ after 30 none
    ∷ read_state 31
    ∷ reset_all
    ∷ []

calls_new-IsValid_example : IsValid (calls history (new_circuit_breaker two_failures)).0
calls_new-IsValid_example = calls_new-IsValid two_failures history

calls-IsPath_example :
    IsPath state_closed
      (calls history (new_circuit_breaker two_failures)).1
      (calls history (new_circuit_breaker two_failures)).0.state
unfolding new_circuit_breaker
calls-IsPath_example = calls-IsPath history (new_circuit_breaker two_failures) refl

abbrev two_ends : List (Instant × Option Err)
two_ends = (1, some (other 0)) ∷ (2, some (other 0)) ∷ []

-- Open since 5.
abbrev opened : CircuitBreaker
opened = record {
  max_failures = pos 2;
  reset_timeout = pos 10;
  half_open_max_requests = pos 1;
  on_state_change = true;
  is_failure = λ err. true;
  state = state_open;
  failures = 2;
  successes = 0;
  last_failure = 5;
  half_open_count = 0;
}

-- The breaker and the clock.
abbrev Bench : Type 0
Bench = CircuitBreaker × Instant

abbrev bench : Host Bench
bench = record {
  breaker = record { get = λ w. w.0; put = λ cb w. (cb, w.1); get-put = λ cb w. refl };
  now = λ w. w.1;
  notified = λ changes w. w;
  get-notified = λ changes w. refl;
}

execute_probe_example :
    (execute bench failing (opened, 20)).1.0
    ≡ record opened { last_failure = 20; half_open_count = 1 }
unfolding since
execute_probe_example =
    execute_probe bench failing (opened, 20) (probing opened, 20) refl (ground arith) refl
      (some (other 1)) (ground arith) refl

execute_panic_locks_example :
    before_request 1_000 (execute bench crashing (opened, 20)).1.0
    ≡ ((execute bench crashing (opened, 20)).1.0, some err_circuit_open, [])
unfolding since
execute_panic_locks_example =
    execute_panic_locks bench crashing (opened, 20) (probing opened, 20) refl (ground arith) refl
      refl refl 1_000
