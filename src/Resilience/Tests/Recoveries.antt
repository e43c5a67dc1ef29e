-- ===== src/Resilience/Tests/Recoveries.antt =====
-- Retries that recover, alone and inside a breaker, at concrete inputs.
use toolops.Base.{ℕ, zero, suc, ◌≡◌, refl, true, Option, none, some, arith}
use toolops.Base.Int.{pos}
use toolops.Resilience.Operation.{
  Err, other, deadline_exceeded, Outcome, returned, panicked, Operation,
}
use toolops.Resilience.Circuit
use toolops.Resilience.Circuit.{CircuitBreaker, new_circuit_breaker, state_closed}
use toolops.Resilience.Retry
use toolops.Resilience.Retry.{RetryConfig, backoff_constant, capped_delay}
use toolops.Resilience.Retry.Recovery.{IsTransient, Keeps}
use toolops.Resilience.Timeout
use toolops.Resilience.Timeout.{Raced, finished, expired}
use toolops.Resilience.Executor.{Executor, execute}
use toolops.Resilience.Executor.Recovery.{IsGuardedRetry, execute_uncounted}
use toolops.Resilience.Executor.Sources.{Source, execute-Source}
use toolops.Resilience.Tests.Doubles.{whole}

abbrev Site : Type 0
Site = CircuitBreaker × ℕ

-- Fails as often as the counter says.
abbrev flaky : Operation Site
flaky (cb, zero) = (returned none, (cb, zero))
flaky (cb, suc n) = (returned (some (other 1)), (cb, n))

abbrev patient : Retry.Host Site
patient = record {
  int64_n = λ n w. (0, w);
  wait = λ d w. (none, w);
  on_retry = λ n e d w. w;
  int64_n-lt = λ n w h. h;
}

abbrev steady : RetryConfig whole
steady = record {
  max_attempts = pos 3;
  initial_delay = pos 100;
  max_delay = pos 150;
  multiplier = pos 2;
  strategy = backoff_constant;
  jitter = true;
  retry_if = none;
  on_retry = true;
}

abbrev breaker : CircuitBreaker
breaker =
    record (new_circuit_breaker (record {
      max_failures = pos 2;
      reset_timeout = pos 30;
      half_open_max_requests = pos 1;
      on_state_change = true;
      is_failure = none;
    })) { failures = 1 }

flaky_fails :
    (w : Site) (n : ℕ)
    → w.1 ≡ suc n
    → (e : Err) × ((flaky w).0 ≡ returned (some e))
      × (Retry.retries whole steady e ≡ true)
      × ((flaky w).1.1 ≡ n)
flaky_fails (cb, zero) n at = absurd (ground (arith, at))
flaky_fails (cb, suc m) n at = (other 1, refl, refl, ground (arith, at))

flaky_succeeds : (w : Site) → w.1 ≡ 0 → (flaky w).0 ≡ returned none
flaky_succeeds (cb, zero) at = refl
flaky_succeeds (cb, suc m) at = absurd (ground (arith, at))

flaky_keeps : (w : Site) → (flaky w).1.0 ≡ w.0
flaky_keeps (cb, zero) = refl
flaky_keeps (cb, suc m) = refl

abbrev flaky-IsTransient : IsTransient whole patient steady flaky (λ w. w.1)
flaky-IsTransient = record {
  succeeds = flaky_succeeds;
  fails = flaky_fails;
  left-int64_n = λ n w. refl;
  left-on_retry = λ k e d w. refl;
  waits = λ d w. refl;
  left-wait = λ d w. refl;
}

abbrev host : Circuit.Host Site
host = record {
  breaker = record { get = λ w. w.0; put = λ cb w. (cb, w.1); get-put = λ cb w. refl };
  now = λ w. 7;
  notified = λ l w. w;
  get-notified = λ l w. refl;
}

abbrev guarded : Executor whole Site
guarded = record {
  circuit_breaker = some host;
  retry = some (patient, steady);
  rate_limiter = none;
  bulkhead = none;
  timeout = none;
}

abbrev shape : IsGuardedRetry guarded host patient steady
shape = record { no_limiter = refl; no_bulkhead = refl; has_breaker = refl; has_retry = refl }

abbrev keeps : Keeps whole patient steady flaky (host.breaker.get)
keeps = record {
  keeps-op = flaky_keeps;
  keeps-int64_n = λ n w. refl;
  keeps-on_retry = λ k e d w. refl;
  keeps-wait = λ d w. refl;
}

-- The operation ends before its deadline; a panic in the goroutine would leave only the deadline.
abbrev raced : Outcome → Raced
raced (returned err) = finished err
raced panicked = expired deadline_exceeded

raced_finished : (o : Outcome) (err : Option Err) → raced o ≡ finished err → o ≡ returned err
raced_finished (returned e) err is = ground (arith, is)
raced_finished panicked err is = absurd (ground (arith, is))

abbrev prompt : Timeout.Host Site
prompt = record {
  race = λ d op w. (raced (op w).0, (op w).1);
  race-finished = λ d op w err is. (w, raced_finished (op w).0 err is);
}

abbrev deadlined : Executor whole Site
deadlined = record guarded { timeout = some (prompt, record { timeout = pos 50 }) }

execute-Source_example : Source deadlined flaky (other 1)
unfolding new_circuit_breaker capped_delay execute Circuit.execute Circuit.before_request
    Retry.execute Retry.calculate_delay Timeout.execute
execute-Source_example =
    execute-Source deadlined flaky (breaker, 9) (other 1) (3, refl, ground arith) refl

execute_uncounted_example :
    ((execute guarded flaky (breaker, 2)).0 ≡ returned none)
    × ((execute guarded flaky (breaker, 2)).1.0 ≡ record breaker { failures = 0 })
unfolding new_circuit_breaker capped_delay
execute_uncounted_example =
    execute_uncounted guarded flaky host patient steady shape keeps 3 (λ w. w.1) (breaker, 2) refl
      flaky-IsTransient (λ k on. ground arith) (λ cb l v. refl) (ground arith) refl refl
