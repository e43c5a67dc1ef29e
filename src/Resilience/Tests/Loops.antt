-- ===== src/Resilience/Tests/Loops.antt =====
-- The theorems of the retry loop at concrete inputs.
use toolops.Base.{ℕ, ◌≡◌, refl, ◌↔◌, true, false, none, arith, ◌≤◌}
use toolops.Base.Int.{pos, ◌≤ℤ◌, ◌<ℤ◌, wrap64}
use toolops.Resilience.Retry.{
  RetryConfig, backoff_exponential, backoff_constant, capped_delay, calculate_delay, execute,
}
use toolops.Resilience.Retry.Attempts.{Run, execute-Run}
use toolops.Resilience.Retry.Delay.{calculate_delay_bounds, calculate_delay_panics_iff}
use toolops.Resilience.Tests.Doubles.{whole, calm, failing}

abbrev three : RetryConfig whole
three = record {
  max_attempts = pos 3;
  initial_delay = pos 100;
  max_delay = pos 150;
  multiplier = pos 2;
  strategy = backoff_exponential;
  jitter = true;
  retry_if = none;
  on_retry = false;
}

-- A delay of two nanoseconds.
abbrev short : RetryConfig whole
short = record three { initial_delay = pos 2; strategy = backoff_constant }

execute-Run_example :
    (n : ℕ) × (1 ≤ n)
    × (n ≤ 3)
    × Run whole calm three failing 1 n 0
        (execute whole calm three failing 0).0
        (execute whole calm three failing 0).1
execute-Run_example = execute-Run whole calm three failing 3 0 refl (ground arith)

calculate_delay_bounds_example :
    (capped_delay whole three 2 ≤ℤ pos 150)
    × (pos 150 ≤ℤ pos 187)
    × (true ≡ false → pos 150 ≤ℤ pos 150)
unfolding capped_delay calculate_delay wrap64
calculate_delay_bounds_example =
    calculate_delay_bounds whole calm three 2 150 0 0 (pos 150) refl (ground arith) refl

calculate_delay_panics_iff_example : ((calculate_delay whole calm short 1 0).0 ≡ none) ↔ (
    (true ≡ true) × (pos 0 <ℤ capped_delay whole short 1) × (capped_delay whole short 1 <ℤ pos 4))
calculate_delay_panics_iff_example = calculate_delay_panics_iff whole calm short 1 0
