-- ===== src/Resilience/Operation.antt =====
-- resilience/errors.go, and what every pattern wraps: an operation `func(context.Context) error`.
--
-- An operation runs in a world `W`, which holds all that it and the pattern can read or change. It
-- returns nil, returns an error, or panics. That it maps a world to any world lets the world also
-- change by what other goroutines do meanwhile.
use toolops.Base.{ℕ, Option}

pub data Err : Type 0 where
  -- The sentinel errors.
  err_circuit_open : Err
  err_max_retries_exceeded : Err
  err_rate_limit_exceeded : Err
  err_bulkhead_full : Err
  err_timeout : Err
  -- The errors of package context.
  canceled : Err
  deadline_exceeded : Err
  -- Any other error of an operation.
  other : ℕ → Err

pub data Outcome : Type 0 where
  returned : Option Err → Outcome
  panicked : Outcome

abbrev pub Operation : Type 0 → Type 0
Operation W = W → Outcome × W
