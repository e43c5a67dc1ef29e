-- ===== src/Resilience/Tests/Bursts.antt =====
-- Requests at one instant, at concrete inputs.
use toolops.Base.{◌+◌, ◌*◌, ◌≤◌, List, ◌≡◌, refl, true, false, [], ◌∷◌, arith}
use toolops.Base.Int.{pos}
use toolops.Base.Time.{since}
use toolops.Resilience.RateLimit.{RateLimiterConfig, new_rate_limiter, allow_n}
use toolops.Resilience.RateLimit.Burst.{IsExact, allow_each, take_each, allow_each_new}
use toolops.Resilience.RateLimit.Admission.{IsWhole, Request, span, admitted, admitted_new-le}
use toolops.Resilience.Tests.Doubles.{whole}

whole-IsExact : IsExact whole (pos 100)
whole-IsExact = record {
  le-of_int = λ a b small small'. ground arith;
  lt-of_int = λ a b small small'. ground arith;
  sub-of_int = λ a b order small. ground arith;
  add_nothing = λ a small. ground arith;
}

abbrev five : RateLimiterConfig whole
five = record { rate = pos 100; burst = pos 5; wait_on_limit = false; max_wait = pos 0 }

taken : take_each 5 (3 ∷ 4 ∷ 2 ∷ 1 ∷ []) ≡ true ∷ false ∷ true ∷ false ∷ []
unfolding take_each
taken = refl

allow_each_new_example :
    allow_each whole 7 (3 ∷ 4 ∷ 2 ∷ 1 ∷ []) (new_rate_limiter whole 7 five)
    ≡ take_each 5 (3 ∷ 4 ∷ 2 ∷ 1 ∷ [])
unfolding new_rate_limiter
allow_each_new_example =
    allow_each_new whole 7 five 5 (3 ∷ 4 ∷ 2 ∷ 1 ∷ []) refl (ground arith) (ground arith)
      whole-IsExact (ground arith, (ground arith, (ground arith, (ground arith, tt))))

whole-IsWhole : IsWhole whole
whole-IsWhole = record {
  add-of_int = λ a b small. ground arith;
  mul-seconds = λ g r small. ground arith;
}

-- The third request comes too early, the fourth two seconds later.
abbrev some_requests : List Request
some_requests = (0, 3) ∷ (1, 90) ∷ (0, 90) ∷ (2, 5) ∷ []

admitted_some : admitted whole 7 some_requests (new_rate_limiter whole 7 five) ≡ 8
unfolding new_rate_limiter admitted allow_n since
admitted_some = refl

admitted_new-le_example :
    admitted whole 7 some_requests (new_rate_limiter whole 7 five) ≤ 5 + span some_requests * 100
unfolding new_rate_limiter
admitted_new-le_example =
    admitted_new-le whole 7 five 100 5 some_requests refl (ground arith) refl whole-IsExact
      whole-IsWhole
      (
        (ground arith, ground arith),
        (
          (ground arith, ground arith),
          ((ground arith, ground arith), ((ground arith, ground arith), tt)),
        ),
      )
      (ground arith)
