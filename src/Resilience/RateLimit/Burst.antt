-- ===== src/Resilience/RateLimit/Burst.antt =====
-- Requests that come at one instant, against a count of whole tokens.
use toolops.Base.{
  ℕ, ◌-◌, ◌≤◌, ◌<◌, ◌≡◌, refl, ap, ◌∙◌, Bool, true, false, List, [], ◌∷◌, Bool-cases, inl, inr,
  arith, leb, ltb, if◌then◌else◌, All,
}
use toolops.Base.Int.{pos}
use toolops.Base.Time.{Instant, since}
use toolops.Base.Float.{Float64}
use toolops.Resilience.RateLimit.{
  RateLimiterConfig, RateLimiter, new_rate_limiter, refill_locked, take_tokens, allow_n,
}

-- The whole numbers that float64 represents without gaps.
abbrev pub two_53 : ℕ
two_53 = 9_007_199_254_740_992

-- What IEEE 754 says of whole numbers of that range: they are compared and subtracted exactly, and
-- adding no time at a rate to one does not change it.
pub record IsExact (f : Float64) (rate : f.F) : Type 0 where
  pub le-of_int :
      (a b : ℕ) → a ≤ two_53 → b ≤ two_53 → f.le (f.of_int (pos a)) (f.of_int (pos b)) ≡ leb a b
  pub lt-of_int :
      (a b : ℕ) → a ≤ two_53 → b ≤ two_53 → f.lt (f.of_int (pos a)) (f.of_int (pos b)) ≡ ltb a b
  pub sub-of_int :
      (a b : ℕ)
      → b ≤ a
      → a ≤ two_53
      → f.sub (f.of_int (pos a)) (f.of_int (pos b)) ≡ f.of_int (pos (a - b))
  pub add_nothing :
      (a : ℕ)
      → a ≤ two_53
      → f.add (f.of_int (pos a)) (f.mul (f.seconds (pos 0)) rate) ≡ f.of_int (pos a)

-- AllowN at one instant, for each of the sizes in turn.
pub allow_each : (f : Float64) → Instant → List ℕ → RateLimiter f → List Bool
allow_each f now [] rl = []
allow_each f now (n ∷ ns) rl =
    let (allowed, rl') = allow_n f now (pos n) rl in allowed ∷ allow_each f now ns rl'

-- Each size that still fits is taken off.
unfoldable pub take_each : ℕ → List ℕ → List Bool
take_each left [] = []
take_each left (n ∷ ns) = leb n left ∷ take_each (if leb n left then left - n else left) ns

since-same : (now : Instant) → since now now ≡ pos 0
unfolding since
since-same now = ground arith

module _ (f : Float64) (rate : f.F) (exact : IsExact f rate) (b : ℕ) (small : b ≤ two_53)
    (now : Instant) where
  -- A limiter of the burst `b` with a whole number of tokens, refreshed now.
  pub record Holds (left : ℕ) (rl : RateLimiter f) : Type 0 where
    pub has_rate : rl.config.rate ≡ rate
    pub has_burst : rl.config.burst ≡ pos b
    pub has_tokens : rl.tokens ≡ f.of_int (pos left)
    pub at_now : rl.last_refresh ≡ now
    pub fits : left ≤ b

  refill_same :
      (left : ℕ) (rl : RateLimiter f)
      → Holds left rl
      → (refill_locked f now rl).tokens ≡ f.of_int (pos left)
  unfolding refill_locked
  refill_same left rl holds =
      rw
        (
          holds.has_rate,
          holds.has_tokens,
          holds.at_now,
          holds.has_burst,
          since-same now,
          exact.add_nothing left (omega (arith, holds.fits, small)),
          exact.lt-of_int b left small (omega (arith, holds.fits, small)),
        )
        (ground (arith, holds.fits))

  refill-Holds :
      (left : ℕ) (rl : RateLimiter f) → Holds left rl → Holds left (refill_locked f now rl)
  unfolding refill_locked
  refill-Holds left rl holds = record {
    has_rate = holds.has_rate;
    has_burst = holds.has_burst;
    has_tokens = refill_same left rl holds;
    at_now = refl;
    fits = holds.fits;
  }

  enough-leb :
      (left n : ℕ) (rl : RateLimiter f)
      → Holds left rl
      → n ≤ two_53
      → f.le (f.of_int (pos n)) rl.tokens ≡ leb n left
  enough-leb left n rl holds sized =
      ap (f.le (f.of_int (pos n))) holds.has_tokens
      ∙ exact.le-of_int n left sized (omega (arith, holds.fits, small))

  pub take_granted :
      (left n : ℕ) (rl : RateLimiter f)
      → Holds left rl
      → n ≤ two_53
      → leb n left ≡ true
      → ((take_tokens f (pos n) rl).0 ≡ true) × Holds (left - n) (take_tokens f (pos n) rl).1
  unfolding take_tokens
  take_granted left n rl holds sized within =
      rw (enough-leb left n rl holds sized, within)
        (
          refl,
          record {
            has_rate = holds.has_rate;
            has_burst = holds.has_burst;
            has_tokens =
                ap (λ t. f.sub t (f.of_int (pos n))) holds.has_tokens
                ∙ exact.sub-of_int left n (ground (arith, within))
                    (omega (arith, holds.fits, small));
            at_now = holds.at_now;
            fits = omega (arith, holds.fits);
          },
        )

  pub take_denied :
      (left n : ℕ) (rl : RateLimiter f)
      → Holds left rl
      → n ≤ two_53
      → leb n left ≡ false
      → take_tokens f (pos n) rl ≡ (false, rl)
  unfolding take_tokens
  take_denied left n rl holds sized over = rw (enough-leb left n rl holds sized, over) refl

  allow_each-take_each :
      (left : ℕ) (ns : List ℕ) (rl : RateLimiter f)
      → All (λ n. n ≤ two_53) ns
      → Holds left rl
      → allow_each f now ns rl ≡ take_each left ns
  unfolding allow_each take_each allow_n
  allow_each-take_each left [] rl sized holds = refl
  allow_each-take_each left (n ∷ ns) rl (first, rest) holds =
      let filled = refill_locked f now rl in
      let holds' : Holds left filled = refill-Holds left rl holds in
      elim (Bool-cases (leb n left)) [
        | inl within ↦
            let (granted, holds'') = take_granted left n filled holds' first within in
            rw (within, granted)
              (ap (λ bs. true ∷ bs) (allow_each-take_each (left - n) ns _ rest holds''))
        | inr over ↦
            rw (over, take_denied left n filled holds' first over)
              (ap (λ bs. false ∷ bs) (allow_each-take_each left ns filled rest holds'))
      ]

-- A new limiter of a positive Burst decides about requests that all come at its first instant as a count
-- of Burst whole tokens would: a request is allowed exactly when its size is at most what the allowed
-- ones before it have left. (Burst and the sizes are at most 2^53, where float64 is exact.)
pub allow_each_new :
    (f : Float64) (now : Instant) (config : RateLimiterConfig f) (b : ℕ) (ns : List ℕ)
    → config.burst ≡ pos b
    → 0 < b
    → b ≤ two_53
    → IsExact f (new_rate_limiter f now config).config.rate
    → All (λ n. n ≤ two_53) ns
    → allow_each f now ns (new_rate_limiter f now config) ≡ take_each b ns
unfolding new_rate_limiter
allow_each_new f now config b ns is_b positive small exact sized =
    allow_each-take_each f (new_rate_limiter f now config).config.rate exact b small now b ns
      (new_rate_limiter f now config) sized
      (record {
        has_rate = refl;
        has_burst = ground (arith, is_b, positive);
        has_tokens = ap f.of_int (ground (arith, is_b, positive));
        at_now = refl;
        fits = omega arith;
      })
