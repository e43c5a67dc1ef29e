-- ===== src/Resilience/Circuit.antt =====
-- resilience/circuit.go: the circuit breaker.
--
-- A method that the mutex guards is one function from the breaker to the breaker, its result and
-- the calls of OnStateChange in their order. `now` is what time.Now() returns in the method.
pub mod Invariant
pub mod Diagram
pub mod Recovery
pub mod Execution
pub mod Sources
use toolops.Base.{
  ℕ, ◌+◌, ◌*◌, ◌≡◌, Bool, true, false, ◌&&◌, List, [], ◌∷◌, ◌++◌, Option, none, some, is_some,
  if◌then◌else◌,
}
use toolops.Base.Int.{ℤ, pos, leb_ℤ, or_default}
use toolops.Base.Time.{Instant, Duration, since, second}
use toolops.Base.Text.{Text, bytes}
use toolops.Base.World.{Cell}
use toolops.Resilience.Operation.{Err, err_circuit_open, Outcome, returned, panicked, Operation}

pub data State : Type 0 where
  state_closed state_open state_half_open : State

-- `String()`
unfoldable pub string_of : State → Text
string_of state_closed = bytes "closed"
string_of state_open = bytes "open"
string_of state_half_open = bytes "half-open"

pub State-discrete : Discrete State
State-discrete = hlevel

abbrev pub same_state : State → State → Bool
same_state state_closed state_closed = true
same_state state_open state_open = true
same_state state_half_open state_half_open = true
same_state _ _ = false

-- What the caller gives: a nil function is `none`. OnStateChange is named by whether it is set.
pub record CircuitBreakerConfig : Type 0 where
  pub max_failures : ℤ
  pub reset_timeout : Duration
  pub half_open_max_requests : ℤ
  pub on_state_change : Bool
  pub is_failure : Option (Option Err → Bool)

-- The breaker, with the configuration after its defaults.
pub record CircuitBreaker : Type 0 where
  pub max_failures : ℤ
  pub reset_timeout : Duration
  pub half_open_max_requests : ℤ
  pub on_state_change : Bool
  pub is_failure : Option Err → Bool
  pub state : State
  pub failures : ℕ
  pub successes : ℕ
  pub last_failure : Instant
  pub half_open_count : ℕ

abbrev or_any_error : Option (Option Err → Bool) → Option Err → Bool
or_any_error none err = is_some err
or_any_error (some f) err = f err

unfoldable pub new_circuit_breaker : CircuitBreakerConfig → CircuitBreaker
new_circuit_breaker config = record {
  max_failures = or_default config.max_failures 5;
  reset_timeout = or_default config.reset_timeout (30 * second);
  half_open_max_requests = or_default config.half_open_max_requests 1;
  on_state_change = config.on_state_change;
  is_failure = or_any_error config.is_failure;
  state = state_closed;
  failures = 0;
  successes = 0;
  last_failure = 0;
  half_open_count = 0;
}

-- A call of OnStateChange with its arguments `from` and `to`.
abbrev pub Change : Type 0
Change = State × State

abbrev pub notify : Bool → State → State → List Change
notify set from to = if set then (from, to) ∷ [] else []

abbrev is_open : State → Bool
is_open state_open = true
is_open _ = false

unfoldable pub current_state_locked :
    Instant → CircuitBreaker → CircuitBreaker × State × List Change
current_state_locked now cb =
    if is_open cb.state && leb_ℤ cb.reset_timeout (since now cb.last_failure)
    then (
      record cb { state = state_half_open; half_open_count = 0 },
      state_half_open,
      notify cb.on_state_change state_open state_half_open,
    )
    else (cb, cb.state, [])

abbrev set_state : State → CircuitBreaker → CircuitBreaker
set_state state_half_open cb = record cb { state = state_half_open; half_open_count = 0 }
set_state s cb = record cb { state = s }

admit : State → CircuitBreaker → CircuitBreaker × Option Err
admit state_open cb = (cb, some err_circuit_open)
admit state_half_open cb =
    if leb_ℤ cb.half_open_max_requests (pos cb.half_open_count)
    then (cb, some err_circuit_open)
    else (record cb { half_open_count = cb.half_open_count + 1 }, none)
admit state_closed cb = (cb, none)

unfoldable pub before_request : Instant → CircuitBreaker → CircuitBreaker × Option Err × List Change
unfolding current_state_locked admit
before_request now cb =
    let (cb', state, changes) = current_state_locked now cb in
    let (cb'', err) = admit state cb' in (cb'', err, changes)

-- The `switch` on the state in which the request ends.
record_result : State → Instant → Bool → CircuitBreaker → CircuitBreaker
record_result state_closed now is_failure cb =
    if is_failure
    then (let cb' = record cb { failures = cb.failures + 1; last_failure = now } in
        if leb_ℤ cb.max_failures (pos (cb.failures + 1)) then set_state state_open cb' else cb')
    else record cb { failures = 0 }
record_result state_half_open now is_failure cb =
    if is_failure
    then set_state state_open (record cb { last_failure = now })
    else record (set_state state_closed (record cb { successes = cb.successes + 1 })) {
      failures = 0;
      successes = 0;
    }
record_result state_open now is_failure cb = cb

unfoldable pub after_request : Instant → Option Err → CircuitBreaker → CircuitBreaker × List Change
unfolding record_result
after_request now err cb =
    let cb' = record_result cb.state now (cb.is_failure err) cb in
    (
      cb',
      if same_state cb.state cb'.state then [] else notify cb.on_state_change cb.state cb'.state,
    )

-- `State()`
unfoldable pub state_of : Instant → CircuitBreaker → CircuitBreaker × State × List Change
unfolding current_state_locked
state_of now cb = current_state_locked now cb

unfoldable pub reset : CircuitBreaker → CircuitBreaker × List Change
reset cb = (
  record cb { state = state_closed; failures = 0; successes = 0; half_open_count = 0 },
  if same_state cb.state state_closed then [] else notify cb.on_state_change cb.state state_closed,
)

pub record CircuitBreakerMetrics : Type 0 where
  pub state : State
  pub failures : ℕ
  pub successes : ℕ
  pub last_failure : Instant

unfoldable pub metrics :
    Instant → CircuitBreaker → CircuitBreaker × CircuitBreakerMetrics × List Change
unfolding current_state_locked
metrics now cb =
    let (cb', state, changes) = current_state_locked now cb in
    (
      cb',
      record {
        state = state;
        failures = cb'.failures;
        successes = cb'.successes;
        last_failure = cb'.last_failure;
      },
      changes,
    )

-- What Execute finds in the world: the breaker, the clock and the callback. The callback runs while
-- the mutex is held, so it does not reach the breaker.
pub record Host (W : Type 0) : Type 0 where
  pub breaker : Cell W CircuitBreaker
  pub now : W → Instant
  pub notified : List Change → W → W
  pub get-notified :
      (changes : List Change) (w : W) → breaker.get (notified changes w) ≡ breaker.get w

module _ {W : Type 0} (h : Host W) where
  open h use {breaker, now, notified}

  -- The rest of Execute once the operation has ended. A panic passes `afterRequest` by.
  unfoldable pub finish : Outcome × W → Outcome × W
  finish (panicked, w) = (panicked, w)
  finish (returned err, w) =
      let (cb, changes) = after_request (now w) err (breaker.get w) in
      (returned err, notified changes (breaker.put cb w))

  pub proceed : Operation W → W → CircuitBreaker × Option Err × List Change → Outcome × W
  proceed op w (cb, some e, changes) = (returned (some e), notified changes (breaker.put cb w))
  proceed op w (cb, none, changes) = finish (op (notified changes (breaker.put cb w)))

  unfoldable pub execute : Operation W → Operation W
  unfolding finish proceed
  execute op w = proceed op w (before_request (now w) (breaker.get w))
