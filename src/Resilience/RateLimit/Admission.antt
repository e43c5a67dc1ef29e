-- ===== src/Resilience/RateLimit/Admission.antt =====
-- How much a token bucket lets through over time.
use toolops.Base.{
  ℕ, ◌+◌, ◌-◌, ◌*◌, ◌≤◌, ◌<◌, ◌≡◌, refl, ap, List, [], ◌∷◌, Bool-cases, inl, inr, arith, leb, ltb,
  if◌then◌else◌, All, min,
}
use toolops.Base.Int.{pos, two_63}
use toolops.Base.Time.{Instant, since, second}
use toolops.Base.Float.{Float64}
use toolops.Resilience.RateLimit.{
  RateLimiterConfig, RateLimiter, new_rate_limiter, refill_locked, take_tokens, allow_n,
}
use toolops.Resilience.RateLimit.Burst.{two_53, IsExact, Holds, take_granted, take_denied}

-- What IEEE 754 says of sums of whole numbers, and of a whole number of seconds at a whole rate.
pub record IsWhole (f : Float64) : Type 0 where
  pub add-of_int :
      (a b : ℕ)
      → a + b ≤ two_53
      → f.add (f.of_int (pos a)) (f.of_int (pos b)) ≡ f.of_int (pos (a + b))
  pub mul-seconds :
      (g r : ℕ)
      → g * r ≤ two_53
      → f.mul (f.seconds (pos (g * second))) (f.of_int (pos r)) ≡ f.of_int (pos (g * r))

-- A request: the whole seconds since the one before, and its size.
abbrev pub Request : Type 0
Request = ℕ × ℕ

abbrev pub span : List Request → ℕ
span [] = 0
span ((gap, n) ∷ requests) = gap + span requests

-- The sizes that are allowed, summed.
unfoldable pub admitted : (f : Float64) → Instant → List Request → RateLimiter f → ℕ
admitted f now [] rl = 0
admitted f now ((gap, n) ∷ requests) rl =
    let (allowed, rl') = allow_n f (now + gap * second) (pos n) rl in
    (if allowed then n else 0) + admitted f (now + gap * second) requests rl'

since_later : (now g : ℕ) → g * second < two_63 → since (now + g * second) now ≡ pos (g * second)
unfolding since
since_later now g small = ground arith

cap_min : {A : Type 0} (k : ℕ → A) (b c : ℕ) → (if ltb b c then k b else k c) ≡ k (min b c)
cap_min k b c = elim (Bool-cases (ltb b c)) [
  | inl less ↦ rw less (ap k (ground (arith, less)))
  | inr other ↦ rw other (ap k (ground (arith, other)))
]

-- Every request can be counted exactly.
abbrev pub IsCountable : Request → Type 0
IsCountable request = (request.0 * second < two_63) × (request.1 ≤ two_53)

module _ (f : Float64) (r b : ℕ) (exact : IsExact f (f.of_int (pos r))) (whole : IsWhole f)
    (small : b ≤ two_53) where
  abbrev Bucket : Instant → ℕ → RateLimiter f → Type 0
  Bucket now left rl = Holds f (f.of_int (pos r)) exact b small now left rl

  refill-Bucket :
      (now g left : ℕ) (rl : RateLimiter f)
      → g * second < two_63
      → b + g * r ≤ two_53
      → Bucket now left rl
      → Bucket (now + g * second) (min b (left + g * r)) (refill_locked f (now + g * second) rl)
  unfolding refill_locked
  refill-Bucket now g left rl short room holds =
      let product : g * r ≤ two_53 = omega arith in
      let sum : left + g * r ≤ two_53 = omega (arith, holds.fits) in
      record {
        has_rate = holds.has_rate;
        has_burst = holds.has_burst;
        has_tokens =
            rw
              (
                holds.has_rate,
                holds.has_tokens,
                holds.at_now,
                holds.has_burst,
                since_later now g short,
                whole.mul-seconds g r product,
                whole.add-of_int left (g * r) sum,
                exact.lt-of_int b (left + g * r) small sum,
              )
              (cap_min (λ n. f.of_int (pos n)) b (left + g * r));
        at_now = refl;
        fits = omega arith;
      }

  -- What is admitted by one request and what is left.
  take-Bucket :
      (now left n : ℕ) (rl : RateLimiter f)
      → n ≤ two_53
      → Bucket now left rl
      → (rest : ℕ) × Bucket now rest (take_tokens f (pos n) rl).1
        × ((if (take_tokens f (pos n) rl).0 then n else 0) + rest ≡ left)
  take-Bucket now left n rl sized holds = elim (Bool-cases (leb n left)) [
    | inl within ↦
        let (granted, holds') =
          take_granted f (f.of_int (pos r)) exact b small now left n rl holds sized within in
        (left - n, holds', rw granted (ground (arith, within)))
    | inr over ↦
        let denied =
          take_denied f (f.of_int (pos r)) exact b small now left n rl holds sized over in
        (left, rw denied holds, rw denied (omega arith))
  ]

  admitted-le :
      (now left : ℕ) (requests : List Request) (rl : RateLimiter f)
      → All IsCountable requests
      → b + span requests * r ≤ two_53
      → Bucket now left rl
      → admitted f now requests rl ≤ left + span requests * r
  unfolding admitted allow_n
  admitted-le now left [] rl countable room holds = omega arith
  admitted-le now left ((g, n) ∷ requests) rl ((short, sized), rest) room holds =
      let filled : Bucket (now + g * second) (min b (left + g * r))
          (refill_locked f (now + g * second) rl) =
        refill-Bucket now g left rl short (omega arith) holds in
      let (left', holds', taken) =
        take-Bucket (now + g * second) (min b (left + g * r)) n _ sized filled in
      let later = admitted-le (now + g * second) left' requests _ rest (omega arith) holds' in
      omega (arith, later, taken)

-- Of requests that come at whole seconds, a new limiter of a positive Burst and a whole Rate admits no more
-- than Burst plus Rate for each second since its first instant. (That bound and the sizes are at most 2^53,
-- where float64 is exact, and no gap passes the range of a Duration.)
pub admitted_new-le :
    (f : Float64) (now : Instant) (config : RateLimiterConfig f) (r b : ℕ) (requests : List Request)
    → config.burst ≡ pos b
    → 0 < b
    → (new_rate_limiter f now config).config.rate ≡ f.of_int (pos r)
    → IsExact f (f.of_int (pos r))
    → IsWhole f
    → All IsCountable requests
    → b + span requests * r ≤ two_53
    → admitted f now requests (new_rate_limiter f now config) ≤ b + span requests * r
unfolding new_rate_limiter
admitted_new-le f now config r b requests is_b positive is_r exact whole countable room =
    admitted-le f r b exact whole (omega arith) now b requests (new_rate_limiter f now config)
      countable room
      (record {
        has_rate = is_r;
        has_burst = ground (arith, is_b, positive);
        has_tokens = ap f.of_int (ground (arith, is_b, positive));
        at_now = refl;
        fits = omega arith;
      })
