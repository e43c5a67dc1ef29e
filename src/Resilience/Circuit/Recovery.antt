-- ===== src/Resilience/Circuit/Recovery.antt =====
-- When the breaker opens, what it rejects while open, how many probes it admits, and how a probe
-- ends, by its result or by a panic.
use toolops.Base.{
  ℕ, suc, ◌+◌, ◌-◌, ◌≤◌, ◌<◌, ◌≡◌, sym, ap, Bool, true, Option, none, some, arith, List, [], ◌∷◌,
  subst, All, length, if◌then◌else◌, min,
}
use native.Mathlib.Decide.{dec_lt}
use toolops.Base.Int.{ℤ, pos, ◌≤ℤ◌, ◌<ℤ◌, leb_ℤ}
use toolops.Base.Time.{Instant, since}
use toolops.Resilience.Operation.{Err, err_circuit_open}
use toolops.Resilience.Circuit.{
  State, state_closed, state_open, state_half_open, CircuitBreaker, Change, before_request,
  after_request, notify,
}

-- The ends of requests, one after the other.
unfoldable pub after_requests : List (Instant × Option Err) → CircuitBreaker → CircuitBreaker
after_requests [] cb = cb
after_requests ((now, err) ∷ ends) cb = after_requests ends (after_request now err cb).0

abbrev pub IsFailing : (Option Err → Bool) → Instant × Option Err → Type 0
IsFailing is_failure (now, err) = is_failure err ≡ true

abbrev opened_at : ℤ → ℕ → State
opened_at limit failures = if leb_ℤ limit (pos failures) then state_open else state_closed

record OneFailure (cb cb' : CircuitBreaker) : Type 0 where
  counted : cb'.failures ≡ suc cb.failures
  moved : cb'.state ≡ opened_at cb.max_failures (suc cb.failures)
  same_limit : cb'.max_failures ≡ cb.max_failures
  same_test : cb'.is_failure ≡ cb.is_failure

after_request-OneFailure :
    (now : Instant) (err : Option Err) (cb : CircuitBreaker)
    → cb.state ≡ state_closed
    → cb.is_failure err ≡ true
    → OneFailure cb (after_request now err cb).0
unfolding after_request
after_request-OneFailure now err cb closed f = ground arith

-- A closed breaker that sees only failures is open exactly when their number, with those that it
-- had counted, reaches MaxFailures, and the count is exact until then.
pub after_requests_failing :
    (ends : List (Instant × Option Err)) (cb : CircuitBreaker)
    → cb.state ≡ state_closed
    → pos cb.failures <ℤ cb.max_failures
    → All (IsFailing cb.is_failure) ends
    → pos (cb.failures + length ends) ≤ℤ cb.max_failures
    → ((after_requests ends cb).state ≡ opened_at cb.max_failures (cb.failures + length ends))
      × ((after_requests ends cb).failures ≡ cb.failures + length ends)
unfolding after_requests
after_requests_failing [] cb closed below failing fits = ground arith
after_requests_failing ((now, err) ∷ []) cb closed below (f, fs) fits =
    ground (arith, after_request-OneFailure now err cb closed f)
after_requests_failing ((now, err) ∷ e ∷ ends) cb closed below (f, fs) fits =
    let one = after_request-OneFailure now err cb closed f in
    let rest =
      after_requests_failing (e ∷ ends) (after_request now err cb).0 (ground arith) (ground arith)
        (subst (λ t. All (IsFailing t) (e ∷ ends)) (sym one.same_test) fs) (ground arith) in
    ground (arith, rest)

-- An open breaker whose ResetTimeout has not passed rejects the request and stays as it is.
pub before_request_open :
    (now : Instant) (cb : CircuitBreaker)
    → cb.state ≡ state_open
    → since now cb.last_failure <ℤ cb.reset_timeout
    → before_request now cb ≡ (cb, some err_circuit_open, [])
unfolding before_request
before_request_open now cb opened early = ground arith

abbrev pub probing : CircuitBreaker → CircuitBreaker
probing cb = record cb { state = state_half_open; half_open_count = 1 }

-- The first request after ResetTimeout is admitted, as a probe.
pub before_request_elapsed :
    (now : Instant) (cb : CircuitBreaker)
    → cb.state ≡ state_open
    → cb.reset_timeout ≤ℤ since now cb.last_failure
    → pos 0 <ℤ cb.half_open_max_requests
    → before_request now cb
      ≡ (probing cb, none, notify cb.on_state_change state_open state_half_open)
unfolding before_request
before_request_elapsed now cb opened late some_probe = ground arith

pub after_request_probe :
    (now : Instant) (err : Option Err) (cb : CircuitBreaker)
    → (after_request now err (probing cb)).0 ≡ (
        if cb.is_failure err
        then record (probing cb) { state = state_open; last_failure = now }
        else record (probing cb) { state = state_closed; failures = 0; successes = 0 })
unfolding after_request
after_request_probe now err cb = ground arith

-- Requests that begin while the breaker is half open, and how many of them it admits.
abbrev tally : Option Err → CircuitBreaker × ℕ → CircuitBreaker × ℕ
tally none (cb, n) = (cb, suc n)
tally (some e) (cb, n) = (cb, n)

unfoldable pub before_requests : List Instant → CircuitBreaker → CircuitBreaker × ℕ
before_requests [] cb = (cb, 0)
before_requests (now ∷ nows) cb =
    let (cb', err, changes) = before_request now cb in tally err (before_requests nows cb')

before_request_probe :
    (now : Instant) (cb : CircuitBreaker) (limit : ℕ)
    → cb.state ≡ state_half_open
    → cb.half_open_max_requests ≡ pos limit
    → cb.half_open_count < limit
    → before_request now cb ≡ (record cb { half_open_count = cb.half_open_count + 1 }, none, [])
unfolding before_request
before_request_probe now cb limit half m room = ground arith

-- A half-open breaker that has admitted HalfOpenMaxRequests rejects, at whatever time.
pub before_request_exhausted :
    (now : Instant) (cb : CircuitBreaker)
    → cb.state ≡ state_half_open
    → cb.half_open_max_requests ≤ℤ pos cb.half_open_count
    → before_request now cb ≡ (cb, some err_circuit_open, [])
unfolding before_request
before_request_exhausted now cb half full = ground arith

-- A half-open breaker admits requests until HalfOpenMaxRequests have been admitted since it became
-- half open, and rejects the rest; it stays half open.
pub before_requests_half_open :
    (nows : List Instant) (cb : CircuitBreaker) (limit : ℕ)
    → cb.state ≡ state_half_open
    → cb.half_open_max_requests ≡ pos limit
    → cb.half_open_count ≤ limit
    → ((before_requests nows cb).1 ≡ min (length nows) (limit - cb.half_open_count))
      × ((before_requests nows cb).0.state ≡ state_half_open)
unfolding before_requests
before_requests_half_open [] cb limit half m fits = ground arith
before_requests_half_open (now ∷ nows) cb limit half m fits =
    let step =
      λ (t : CircuitBreaker × Option Err × List Change). tally t.1 (before_requests nows t.0) in
    elim (dec_lt cb.half_open_count limit) [
      | yes room ↦
          let admitted = record cb { half_open_count = cb.half_open_count + 1 } in
          ground (
            arith,
            ap step (before_request_probe now cb limit half m room),
            before_requests_half_open nows admitted limit half m (ground arith),
          )
      | no full ↦ ground (
        arith,
        ap step (before_request_exhausted now cb half (ground arith)),
        before_requests_half_open nows cb limit half m fits,
      )
    ]
