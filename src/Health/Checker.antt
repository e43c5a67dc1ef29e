-- ===== src/Health/Checker.antt =====
-- health/checker.go and health/errors.go: the result of a check.
use toolops.Base.{ℕ, Option, none, []}
use toolops.Base.Time.{Instant, Duration}
use toolops.Base.Int.{pos}
use toolops.Base.Text.{Text, bytes}
use toolops.Base.StringMap.{StringMap}

pub data Err : Type 0 where
  err_check_failed err_check_timeout err_checker_not_found err_no_checkers : Err
  -- Any other error of a check.
  other : ℕ → Err

-- The text of an error, `other_text` for those from outside.
unfoldable pub error_text : (ℕ → Text) → Err → Text
error_text other_text err_check_failed = bytes "health: check failed"
error_text other_text err_check_timeout = bytes "health: check timeout"
error_text other_text err_checker_not_found = bytes "health: checker not found"
error_text other_text err_no_checkers = bytes "health: no checkers registered"
error_text other_text (other n) = other_text n

-- `unknown_status` is any other value of the integer type.
pub data Status : Type 0 where
  status_healthy status_degraded status_unhealthy unknown_status : Status

-- `String()`
unfoldable pub to_string : Status → Text
to_string status_healthy = bytes "healthy"
to_string status_degraded = bytes "degraded"
to_string status_unhealthy = bytes "unhealthy"
to_string unknown_status = bytes "unknown"

-- A value among the details: what the aggregator notes of one check (a duration that is printed later),
-- or another value.
pub data Detail : Type 0 where
  summary : Text → Text → Duration → Detail
  other_detail : ℕ → Detail

pub record Result : Type 0 where
  pub status : Status
  pub message : Text
  pub details : StringMap Detail
  pub duration : Duration
  pub timestamp : Instant
  pub error : Option Err

abbrev result_at : Status → Instant → Text → Option Err → Result
result_at status now message err = record {
  status = status;
  message = message;
  details = [];
  duration = pos 0;
  timestamp = now;
  error = err;
}

unfoldable pub healthy : Instant → Text → Result
healthy now message = result_at status_healthy now message none

unfoldable pub degraded : Instant → Text → Result
degraded now message = result_at status_degraded now message none

unfoldable pub unhealthy : Instant → Text → Option Err → Result
unhealthy now message err = result_at status_unhealthy now message err

unfoldable pub with_details : StringMap Detail → Result → Result
with_details details r = record r { details = details }

unfoldable pub with_duration : Duration → Result → Result
with_duration d r = record r { duration = d }

-- The interface Checker, over the world that its implementations read and change. A context is its
-- deadline, if it has one.
pub record Checker (W : Type 0) : Type 0 where
  pub name : Text
  pub check : Option Instant → W → Result × W

unfoldable pub new_checker_func :
    {W : Type 0} → Text → (Option Instant → W → Result × W) → Checker W
new_checker_func name fn = record { name = name; check = fn }
