-- ===== src/Health/Tests/Thresholds.antt =====
-- The thresholds of the memory check at concrete numbers.
use toolops.Base.{◌+◌, [], ℕ, ◌≡◌, refl, ◌*◌, ◌/◌, none}
use toolops.Base.Int.{ℤ, pos, pos_part, neg_part, sub_ℕ, leb_ℤ, ltb_ℤ, ◌+ℤ◌}
use toolops.Base.Float.{Float64}
use toolops.Health.Checker.{
  status_unhealthy, status_degraded, degraded, unhealthy, with_details, other_detail,
}
use toolops.Health.Memory.{
  MemoryCheckerConfig, MemStats, Host, new_memory_checker, usage_ratio, check,
}

-- Thousandths in place of float64.
abbrev thousandths : Float64
thousandths = record {
  F = ℤ;
  of_int = λ x. pos (pos_part x * 1000);
  to_int = λ x. pos (pos_part x / 1000);
  seconds = λ d. d;
  add = λ x y. x +ℤ y;
  sub = λ x y. sub_ℕ (pos_part x + neg_part y) (neg_part x + pos_part y);
  mul = λ x y. pos (pos_part x * pos_part y / 1000);
  div = λ x y. pos (pos_part x * 1000 / pos_part y);
  pow = λ x y. x;
  le = leb_ℤ;
  lt = ltb_ℤ;
}

abbrev late_warning : MemoryCheckerConfig ℤ
late_warning = record {
  warning_threshold = pos 995;
  critical_threshold = pos 500;
  max_alloc = 1000;
}

-- A warning threshold above 0.99 is left above the critical one, which is raised to 0.99 only.
critical_below_warning :
    new_memory_checker thousandths late_warning
    ≡ record { warning_threshold = pos 995; critical_threshold = pos 990; max_alloc = 1000 }
unfolding new_memory_checker
critical_below_warning = refl

-- The defaults.
default_thresholds :
    new_memory_checker thousandths
      (record { warning_threshold = pos 0; critical_threshold = pos 1000; max_alloc = 0 })
    ≡ record { warning_threshold = pos 800; critical_threshold = pos 950; max_alloc = 0 }
unfolding new_memory_checker
default_thresholds = refl

abbrev in_use : ℕ → MemStats
in_use alloc = record {
  alloc = alloc;
  total_alloc = alloc;
  sys = 2000;
  num_gc = 0;
  heap_alloc = alloc;
  heap_sys = 0;
  heap_idle = 0;
  heap_inuse = 0;
  heap_released = 0;
  heap_objects = 0;
  stack_inuse = 0;
  stack_sys = 0;
  pause_total_ns = 0;
}

-- The world is the memory in use.
abbrev memory_host : Host ℤ ℕ
memory_host = record {
  done = λ ctx w. none;
  read_mem_stats = in_use;
  num_goroutine = λ w. 1;
  now = λ w. 5;
  percent = λ x. [];
  detail = λ x. other_detail 0;
}

-- Of the 2000 bytes that the system has given, 1700 are above the warning threshold, 1900 critical.
degraded_test :
    (check thousandths memory_host
      (record { warning_threshold = pos 800; critical_threshold = pos 950; max_alloc = 0 })
      none
      1700).0.status
    ≡ status_degraded
unfolding check usage_ratio with_details degraded
degraded_test = refl

critical_test :
    (check thousandths memory_host
      (record { warning_threshold = pos 800; critical_threshold = pos 950; max_alloc = 0 })
      none
      1900).0.status
    ≡ status_unhealthy
unfolding check usage_ratio with_details unhealthy
critical_test = refl
