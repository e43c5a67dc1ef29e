-- ===== src/Resilience/Tests/Limits.antt =====
-- The theorems of the bulkhead, the rate limiter and the executor at concrete inputs.
use toolops.Base.{ℕ, ◌≡◌, refl, true, false, none, some, arith}
use toolops.Base.Int.{pos, negsuc, ◌≤ℤ◌}
use toolops.Resilience.Bulkhead
use toolops.Resilience.Bulkhead.{Bulkhead, BulkheadConfig, new_bulkhead, metrics, count_rejected}
use toolops.Resilience.Bulkhead.Interleaving.{
  Scene, Reach, start, sends, counts_in, receives, counts_out, next, here, Reach-active_settled,
  active_overshoots,
}
use toolops.Resilience.RateLimit.{RateLimiterConfig, RateLimiter}
use toolops.Resilience.Circuit
use toolops.Resilience.Circuit.{CircuitBreaker, state_open}
use toolops.Resilience.Executor.{Executor}
use toolops.Resilience.Tests.Doubles.{whole}

abbrev one_slot : BulkheadConfig
one_slot = record { max_concurrent = pos 1; max_wait = pos 0 }

-- Enters and leaves.
abbrev one_visit : (s : Scene) × Reach (start one_slot) s
unfolding new_bulkhead
one_visit = (
  _,
  next
      (next (next (next here (sends _ refl)) (counts_in _ (ground arith)))
        (receives _ (ground arith)))
      (counts_out _ (ground arith)),
)

Reach-active_settled_example :
    (one_visit.0.bulkhead.active ≡ pos one_visit.0.bulkhead.sem)
    × (pos one_visit.0.bulkhead.sem ≤ℤ one_visit.0.bulkhead.max_concurrent)
    × (one_visit.0.bulkhead.active ≤ℤ one_visit.0.bulkhead.max_active)
unfolding new_bulkhead
Reach-active_settled_example = Reach-active_settled one_slot one_visit.1 refl refl

active_overshoots_example :
    (s : Scene) × Reach (start one_slot) s
    × ((metrics s.bulkhead).active ≡ pos 2)
    × ((metrics s.bulkhead).available ≡ negsuc 0)
active_overshoots_example = active_overshoots one_slot 0 refl

abbrev in_use : ℕ → Bulkhead
in_use n = record {
  max_concurrent = pos 1;
  max_wait = pos 0;
  sem = n;
  active = pos n;
  max_active = pos 1;
  rejected = pos 0;
}

abbrev slow : RateLimiterConfig whole
slow = record { rate = pos 1; burst = pos 2; wait_on_limit = false; max_wait = pos 0 }

-- The limiter, the bulkhead, the breaker and the clock in one world.
record Site : Type 0 where
  limiter : RateLimiter whole
  bulkhead : Bulkhead
  breaker : CircuitBreaker
  clock : ℕ

abbrev bulkhead_at : Bulkhead.Host Site
bulkhead_at = record {
  bulkhead = record {
    get = λ w. w.bulkhead;
    put = λ s w. record w { bulkhead = s };
    get-put = λ s w. refl;
  };
  wait_slot = λ d w. (Bulkhead.timed_out, w);
  sent-room = λ d w h. ground arith;
}

abbrev breaker_at : Circuit.Host Site
breaker_at = record {
  breaker = record {
    get = λ w. w.breaker;
    put = λ s w. record w { breaker = s };
    get-put = λ s w. refl;
  };
  now = λ w. w.clock;
  notified = λ changes w. w;
  get-notified = λ changes w. refl;
}

-- No token, room in the bulkhead, the breaker open since 5, at 9.
abbrev site : Site
site = record {
  limiter = record { config = slow; tokens = pos 0; last_refresh = 8 };
  bulkhead = in_use 0;
  breaker = record {
    max_failures = pos 2;
    reset_timeout = pos 10;
    half_open_max_requests = pos 1;
    on_state_change = true;
    is_failure = λ err. true;
    state = state_open;
    failures = 2;
    successes = 0;
    last_failure = 5;
    half_open_count = 0;
  };
  clock = 9;
}

abbrev guarded_only : Executor whole Site
guarded_only = record {
  circuit_breaker = some breaker_at;
  retry = none;
  rate_limiter = none;
  bulkhead = some bulkhead_at;
  timeout = none;
}
