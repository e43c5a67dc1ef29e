-- ===== src/Resilience/RateLimit.antt =====
-- resilience/ratelimit.go: a token bucket. float64 is the parameter `f`; elapsed.Seconds() and the
-- conversion of seconds to a Duration are its operations on nanoseconds.
pub mod Bounds
pub mod Burst
pub mod Admission
pub mod Sources
use toolops.Base.{ℕ, ◌≡◌, Bool, true, false, Option, none, some, if◌then◌else◌}
use toolops.Base.Int.{ℤ, pos, leb_ℤ, ltb_ℤ, or_default}
use toolops.Base.Time.{Instant, Duration, since, second}
use toolops.Base.Float.{Float64}
use toolops.Base.World.{Cell}
use toolops.Resilience.Operation.{Err, err_rate_limit_exceeded, Outcome, returned, Operation}

module _ (f : Float64) where
  pub record RateLimiterConfig : Type 0 where
    pub rate : f.F
    pub burst : ℤ
    pub wait_on_limit : Bool
    pub max_wait : Duration

  pub record RateLimiter : Type 0 where
    pub config : RateLimiterConfig
    pub tokens : f.F
    pub last_refresh : Instant

  with_defaults : RateLimiterConfig → RateLimiterConfig
  with_defaults config = record config {
    rate = if f.le config.rate (f.of_int (pos 0)) then f.of_int (pos 100) else config.rate;
    burst = or_default config.burst 10;
    max_wait = or_default config.max_wait second;
  }

  unfoldable pub new_rate_limiter : Instant → RateLimiterConfig → RateLimiter
  unfolding with_defaults
  new_rate_limiter now config = record {
    config = with_defaults config;
    tokens = f.of_int (with_defaults config).burst;
    last_refresh = now;
  }

  abbrev cap : RateLimiterConfig → f.F → f.F
  cap config tokens = if f.lt (f.of_int config.burst) tokens then f.of_int config.burst else tokens

  unfoldable pub refill_locked : Instant → RateLimiter → RateLimiter
  refill_locked now rl = record rl {
    last_refresh = now;
    tokens =
        cap rl.config
          (f.add rl.tokens (f.mul (f.seconds (since now rl.last_refresh)) rl.config.rate));
  }

  -- AllowN after its refill.
  pub take_tokens : ℤ → RateLimiter → Bool × RateLimiter
  take_tokens n rl =
      if f.le (f.of_int n) rl.tokens
      then (true, record rl { tokens = f.sub rl.tokens (f.of_int n) })
      else (false, rl)

  unfoldable pub allow_n : Instant → ℤ → RateLimiter → Bool × RateLimiter
  unfolding refill_locked take_tokens
  allow_n now n rl = take_tokens n (refill_locked now rl)

  -- `Tokens()`
  unfoldable pub tokens : Instant → RateLimiter → f.F × RateLimiter
  unfolding refill_locked
  tokens now rl = let rl' = refill_locked now rl in (rl'.tokens, rl')

  unfoldable pub reset : Instant → RateLimiter → RateLimiter
  reset now rl = record rl { tokens = f.of_int rl.config.burst; last_refresh = now }

  unfoldable pub wait_time : ℤ → RateLimiter → Duration
  wait_time n rl =
      let needed = f.sub (f.of_int n) rl.tokens in
      let time = f.to_int (f.mul (f.div needed rl.config.rate) (f.of_int (pos second))) in
      if ltb_ℤ rl.config.max_wait time then rl.config.max_wait else time

  -- The limiter in the world, the clock, the check of the context, and the wait for a delay or the
  -- context's end.
  pub record Host (W : Type 0) : Type 0 where
    pub limiter : Cell W RateLimiter
    pub now : W → Instant
    pub ctx_err : W → Option Err
    pub wait : Duration → W → Option Err × W

  module _ {W : Type 0} (h : Host W) where
    open h use {limiter, now, ctx_err, wait}

    abbrev allow_in : ℤ → W → Bool × W
    allow_in n w =
        let (allowed, rl) = allow_n (now w) n (limiter.get w) in (allowed, limiter.put rl w)

    -- The second try, after the wait.
    abbrev retry_allow : Bool × W → Option Err × W
    retry_allow (true, w) = (none, w)
    retry_allow (false, w) = (some err_rate_limit_exceeded, w)

    abbrev waited : ℤ → Option Err × W → Option Err × W
    waited n (some err, w) = (some err, w)
    waited n (none, w) = retry_allow (allow_in n w)

    abbrev first_allow : ℤ → Bool × W → Option Err × W
    first_allow n (true, w) = (none, w)
    first_allow n (false, w) = waited n (wait (wait_time n (limiter.get w)) w)

    abbrev check_context : ℤ → Option Err → W → Option Err × W
    check_context n (some err) w = (some err, w)
    check_context n none w = first_allow n (allow_in n w)

    unfoldable pub wait_n : ℤ → W → Option Err × W
    wait_n n w = check_context n (ctx_err w) w

    abbrev pub admit : W → Option Err × W
    admit w =
        if (limiter.get w).config.wait_on_limit
        then wait_n (pos 1) w
        else retry_allow (allow_in (pos 1) w)

    abbrev run_if : Operation W → Option Err × W → Outcome × W
    run_if op (some err, w) = (returned (some err), w)
    run_if op (none, w) = op w

    unfoldable pub execute : Operation W → Operation W
    unfolding wait_n
    execute op w = run_if op (admit w)
