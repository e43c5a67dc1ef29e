-- ===== src/Health/Memory/Severity.antt =====
-- Which status a memory check has.
use toolops.Base.{◌≡◌, refl, ◌==◌, Bool, Option, none, some, is_some, if◌then◌else◌, arith}
use toolops.Base.Float.{Float64}
use toolops.Base.Time.{Instant}
use toolops.Health.Checker.{
  Status, status_healthy, status_degraded, status_unhealthy, Err, healthy, degraded, unhealthy,
  with_details,
}
use toolops.Health.Memory.{MemoryCheckerConfig, Host, max_alloc_of, usage_ratio, unless_done, check}

abbrev by_ratio : Bool → Bool → Bool → Status
by_ratio unknown critical high =
    if unknown
    then status_healthy
    else if critical
    then status_unhealthy
    else if high
    then status_degraded
    else status_healthy

module _ (f : Float64) {W : Type 0} (h : Host (f.F) W) (config : MemoryCheckerConfig (f.F)) where
  -- The ratio of the memory in use to what may be used.
  abbrev pub ratio_in : W → f.F
  ratio_in w = let stats = h.read_mem_stats w in usage_ratio f stats (max_alloc_of f config stats)

  -- The status of a check: unhealthy under a context that is done; else healthy where the maximum is not
  -- known; else unhealthy from the critical threshold on, degraded from the warning threshold on, and
  -- healthy below. Checking changes nothing.
  pub check-status :
      (ctx : Option Instant) (w : W)
      → ((check f h config ctx w).0.status ≡ (
          if is_some (h.done ctx w)
          then status_unhealthy
          else by_ratio
              (max_alloc_of f config (h.read_mem_stats w) == 0)
              (f.le config.critical_threshold (ratio_in w))
              (f.le config.warning_threshold (ratio_in w))))
        × ((check f h config ctx w).1 ≡ w)
  unfolding check with_details healthy degraded unhealthy
  check-status ctx w = (status_of (h.done ctx w), refl)
    where
      status_of :
          (done : Option Err)
          → (unless_done f h config done w).status ≡ (
              if is_some done
              then status_unhealthy
              else by_ratio
                  (max_alloc_of f config (h.read_mem_stats w) == 0)
                  (f.le config.critical_threshold (ratio_in w))
                  (f.le config.warning_threshold (ratio_in w)))
      status_of (some err) = refl
      status_of none = ground arith
