-- ===== src/Resilience/RateLimit/Bounds.antt =====
-- The bucket never holds more than the burst, and what a refused request leaves.
use toolops.Base.{
  ◌≡◌, ap, ◌∙◌, false, some, if◌then◌else◌, List, [], ◌∷◌, All, Bool-cases, inl, inr,
}
use toolops.Base.Int.{ℤ, pos, ◌≤ℤ◌}
use toolops.Base.Time.{Instant}
use toolops.Base.Float.{Float64}
use toolops.Resilience.Operation.{err_rate_limit_exceeded, returned, Operation}
use toolops.Resilience.RateLimit.{
  RateLimiter, RateLimiterConfig, Host, new_rate_limiter, refill_locked, take_tokens, allow_n,
  tokens, reset, cap, execute, allow_in, retry_allow, run_if, wait_n,
}

-- A call that takes the limiter's mutex.
pub data Call : Type 0 where
  allow : Instant → ℤ → Call
  read_tokens : Instant → Call
  reset_all : Instant → Call

-- AllowN is asked for no negative number.
abbrev pub IsCount : Call → Type 0
IsCount (allow now n) = pos 0 ≤ℤ n
IsCount (read_tokens now) = Unit
IsCount (reset_all now) = Unit

module _ (f : Float64) where
  pub call : Call → RateLimiter f → RateLimiter f
  call (allow now n) rl = (allow_n f now n rl).1
  call (read_tokens now) rl = (tokens f now rl).1
  call (reset_all now) rl = reset f now rl

  pub calls : List Call → RateLimiter f → RateLimiter f
  unfolding call
  calls [] rl = rl
  calls (c ∷ cs) rl = calls cs (call c rl)

  -- The bucket holds no more than the burst.
  abbrev pub IsCapped : RateLimiter f → Type 0
  IsCapped rl = f.lt (f.of_int rl.config.burst) rl.tokens ≡ false

  module _ (lt_irrefl : (x : f.F) → f.lt x x ≡ false)
      (sub_no_more : (x y : f.F) (n : ℤ)
        → pos 0 ≤ℤ n
        → f.lt x y ≡ false
        → f.lt x (f.sub y (f.of_int n)) ≡ false) where
    cap-IsCapped :
        (config : RateLimiterConfig f) (x : f.F)
        → f.lt (f.of_int config.burst) (cap f config x) ≡ false
    cap-IsCapped config x = elim (Bool-cases (f.lt (f.of_int config.burst) x)) [
      | inl above ↦ rw above (lt_irrefl _)
      | inr below ↦ rw below below
    ]

    take_tokens-IsCapped :
        (n : ℤ) (rl : RateLimiter f) → pos 0 ≤ℤ n → IsCapped rl → IsCapped (take_tokens f n rl).1
    unfolding take_tokens
    take_tokens-IsCapped n rl count capped = elim (Bool-cases (f.le (f.of_int n) rl.tokens)) [
      | inl enough ↦ rw enough (sub_no_more _ _ n count capped)
      | inr short ↦ rw short capped
    ]

    call-IsCapped : (c : Call) (rl : RateLimiter f) → IsCount c → IsCapped rl → IsCapped (call c rl)
    unfolding call allow_n tokens reset
    call-IsCapped (allow now n) rl count capped =
        take_tokens-IsCapped n (refill_locked f now rl) count (cap-IsCapped rl.config _)
    call-IsCapped (read_tokens now) rl count capped = cap-IsCapped rl.config _
    call-IsCapped (reset_all now) rl count capped = lt_irrefl _

    calls-IsCapped :
        (cs : List Call) (rl : RateLimiter f)
        → All IsCount cs
        → IsCapped rl
        → IsCapped (calls cs rl)
    unfolding calls
    calls-IsCapped [] rl counts capped = capped
    calls-IsCapped (c ∷ cs) rl (count, counts) capped =
        calls-IsCapped cs (call c rl) counts (call-IsCapped c rl count capped)

    -- Over any calls at any times that ask for no negative count, a bucket that starts full never
    -- holds more than the burst. (Of the floating-point operations: `<` is irreflexive, and taking
    -- a count away makes no number larger.)
    pub calls_new-IsCapped :
        (cs : List Call) (now : Instant) (config : RateLimiterConfig f)
        → All IsCount cs
        → IsCapped (calls cs (new_rate_limiter f now config))
    unfolding new_rate_limiter
    calls_new-IsCapped cs now config counts = calls-IsCapped cs _ counts (lt_irrefl _)

-- Where the limiter does not wait, Execute of a refused request returns ErrRateLimitExceeded and does
-- not run the operation.
pub execute_refused :
    (f : Float64) {W : Type 0} (h : Host f W) (op : Operation W) (w : W)
    → (h.limiter.get w).config.wait_on_limit ≡ false
    → (allow_n f (h.now w) (pos 1) (h.limiter.get w)).0 ≡ false
    → execute f h op w ≡ (
      returned (some err_rate_limit_exceeded),
      h.limiter.put (allow_n f (h.now w) (pos 1) (h.limiter.get w)).1 w,
    )
unfolding execute
execute_refused f h op w no_wait refused =
    ap
      (λ b.
        run_if f h op
          (if b then wait_n f h (pos 1) w else retry_allow f h (allow_in f h (pos 1) w)))
      no_wait
    ∙ ap
        (λ b.
          run_if f h op (
            retry_allow f h (b, h.limiter.put (allow_n f (h.now w) (pos 1) (h.limiter.get w)).1 w)))
        refused
