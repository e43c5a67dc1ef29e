-- ===== src/Resilience/Retry/Delay.antt =====
-- Bounds on the delay between two attempts, and when computing it panics.
use toolops.Base.{ℕ, ◌+◌, ◌/◌, ◌<◌, ◌≡◌, ◌↔◌, true, false, none, some, arith}
use toolops.Base.Int.{ℤ, pos, pos_part, ◌≤ℤ◌, ◌<ℤ◌, two_63, wrap64-pos}
use toolops.Base.Float.{Float64}
use toolops.Resilience.Retry.{RetryConfig, Host, capped_delay, calculate_delay}

capped_delay-le :
    (f : Float64) (config : RetryConfig f) (attempt : ℕ)
    → capped_delay f config attempt ≤ℤ config.max_delay
unfolding capped_delay
capped_delay-le f config attempt = ground arith

module _ {W : Type 0} (f : Float64) (h : Host W) (config : RetryConfig f) where
  -- Before jitter the delay is at most MaxDelay. With jitter it is not shortened, and may pass MaxDelay
  -- by less than a quarter of it; without jitter it stays below MaxDelay. (MaxDelay and a quarter of it
  -- fit an int64.)
  pub calculate_delay_bounds :
      (attempt m : ℕ) (w w' : W) (d : ℤ)
      → config.max_delay ≡ pos m
      → m + m / 4 < two_63
      → calculate_delay f h config attempt w ≡ (some d, w')
      → (capped_delay f config attempt ≤ℤ d)
        × (d ≤ℤ pos (m + m / 4))
        × (config.jitter ≡ false → d ≤ℤ config.max_delay)
  unfolding calculate_delay
  calculate_delay_bounds attempt m w w' d is_m fits e = ground (
    arith,
    capped_delay-le f config attempt,
    h.int64_n-lt (pos_part (capped_delay f config attempt) / 4) w,
    wrap64-pos (
        pos_part (capped_delay f config attempt)
        + (h.int64_n (pos_part (capped_delay f config attempt) / 4) w).0),
  )

  -- The delay panics exactly when jitter is on and the delay before jitter is 1, 2 or 3 nanoseconds.
  pub calculate_delay_panics_iff :
      (attempt : ℕ) (w : W)
      → ((calculate_delay f h config attempt w).0 ≡ none) ↔ (
          (config.jitter ≡ true)
          × (pos 0 <ℤ capped_delay f config attempt)
          × (capped_delay f config attempt <ℤ pos 4))
  unfolding calculate_delay
  calculate_delay_panics_iff attempt w = ground arith
