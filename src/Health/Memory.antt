-- ===== src/Health/Memory.antt =====
-- health/memory.go: the check of the memory in use. float64, runtime.ReadMemStats and the texts of
-- fmt.Sprintf are parameters.
pub mod Severity
use toolops.Base.{
  ℕ, ◌+◌, ◌*◌, ◌==◌, Bool, true, false, ◌||◌, Option, none, some, List, [], ◌∷◌, ◌++◌,
  if◌then◌else◌,
}
use toolops.Base.Int.{ℤ, pos}
use toolops.Base.Float.{Float64}
use toolops.Base.Time.{Instant}
use toolops.Base.Text.{Text, bytes}
use toolops.Base.StringMap.{StringMap}
use toolops.Health.Checker.{
  Checker, Result, Detail, Err, err_check_failed, healthy, degraded, unhealthy, with_details,
}

pub record MemoryCheckerConfig (F : Type 0) : Type 0 where
  pub warning_threshold : F
  pub critical_threshold : F
  pub max_alloc : ℕ

-- The fields of runtime.MemStats that are read.
pub record MemStats : Type 0 where
  pub alloc : ℕ
  pub total_alloc : ℕ
  pub sys : ℕ
  pub num_gc : ℕ
  pub heap_alloc : ℕ
  pub heap_sys : ℕ
  pub heap_idle : ℕ
  pub heap_inuse : ℕ
  pub heap_released : ℕ
  pub heap_objects : ℕ
  pub stack_inuse : ℕ
  pub stack_sys : ℕ
  pub pause_total_ns : ℕ

-- A value among the details.
pub data Figure (F : Type 0) : Type 0 where
  whole : ℕ → Figure F
  real : F → Figure F

-- What the runtime gives: the context's error once it is done, the statistics, the number of goroutines and
-- the clock; the text of a percentage, and how a figure stands among the details.
pub record Host (F W : Type 0) : Type 0 where
  pub done : Option Instant → W → Option Err
  pub read_mem_stats : W → MemStats
  pub num_goroutine : W → ℕ
  pub now : W → Instant
  pub percent : F → Text
  pub detail : Figure F → Detail

module _ (f : Float64) where
  -- The constant n / d.
  abbrev pub decimal : ℕ → ℕ → f.F
  decimal n d = f.div (f.of_int (pos n)) (f.of_int (pos d))

  -- A threshold outside of the range takes its default.
  abbrev pub in_range : f.F → f.F → f.F
  in_range default x = if f.le x (f.of_int (pos 0)) || f.le (f.of_int (pos 1)) x then default else x

  abbrev pub at_most_one : f.F → f.F
  at_most_one x = if f.lt (f.of_int (pos 1)) x then decimal 99 100 else x

  abbrev pub not_below : f.F → f.F → f.F
  not_below warning critical =
      if f.lt critical warning then at_most_one (f.add warning (decimal 1 10)) else critical

  unfoldable pub new_memory_checker : MemoryCheckerConfig (f.F) → MemoryCheckerConfig (f.F)
  new_memory_checker config =
      let warning = in_range (decimal 8 10) config.warning_threshold in
      record {
        warning_threshold = warning;
        critical_threshold =
            not_below warning (in_range (decimal 95 100) config.critical_threshold);
        max_alloc = config.max_alloc;
      }

  -- Zero takes the memory that the system has given.
  abbrev pub max_alloc_of : MemoryCheckerConfig (f.F) → MemStats → ℕ
  max_alloc_of config stats = if config.max_alloc == 0 then stats.sys else config.max_alloc

  unfoldable pub usage_ratio : MemStats → ℕ → f.F
  usage_ratio stats max_alloc = f.div (f.of_int (pos stats.alloc)) (f.of_int (pos max_alloc))

  module _ {W : Type 0} (h : Host (f.F) W) (config : MemoryCheckerConfig (f.F)) where
    abbrev short_details : MemStats → StringMap Detail
    short_details stats =
        (bytes "alloc", h.detail (whole stats.alloc))
        ∷ (bytes "total_alloc", h.detail (whole stats.total_alloc))
        ∷ (bytes "sys", h.detail (whole stats.sys))
        ∷ (bytes "num_gc", h.detail (whole stats.num_gc))
        ∷ []

    abbrev all_details : MemStats → ℕ → f.F → ℕ → StringMap Detail
    all_details stats max_alloc ratio goroutines =
        (bytes "alloc_bytes", h.detail (whole stats.alloc))
        ∷ (
          bytes "alloc_mb",
          h.detail (real (f.div (f.of_int (pos stats.alloc)) (f.of_int (pos (1024 * 1024))))),
        )
        ∷ (bytes "max_alloc", h.detail (whole max_alloc))
        ∷ (bytes "usage_percent", h.detail (real (f.mul ratio (f.of_int (pos 100)))))
        ∷ (bytes "heap_alloc", h.detail (whole stats.heap_alloc))
        ∷ (bytes "heap_sys", h.detail (whole stats.heap_sys))
        ∷ (bytes "heap_idle", h.detail (whole stats.heap_idle))
        ∷ (bytes "heap_in_use", h.detail (whole stats.heap_inuse))
        ∷ (bytes "heap_released", h.detail (whole stats.heap_released))
        ∷ (bytes "heap_objects", h.detail (whole stats.heap_objects))
        ∷ (bytes "stack_in_use", h.detail (whole stats.stack_inuse))
        ∷ (bytes "stack_sys", h.detail (whole stats.stack_sys))
        ∷ (bytes "gc_pause_total", h.detail (whole stats.pause_total_ns))
        ∷ (bytes "num_gc", h.detail (whole stats.num_gc))
        ∷ (bytes "goroutines", h.detail (whole goroutines))
        ∷ []

    -- The result for a ratio, its details left out.
    abbrev pub judge : Instant → f.F → Result
    judge at ratio =
        let text = h.percent (f.mul ratio (f.of_int (pos 100))) in
        if f.le config.critical_threshold ratio
        then unhealthy at (bytes "memory usage critical: " ++ text) (some err_check_failed)
        else if f.le config.warning_threshold ratio
        then degraded at (bytes "memory usage high: " ++ text)
        else healthy at (bytes "memory usage normal: " ++ text)

    abbrev measured : MemStats → ℕ → ℕ → Instant → Result
    measured stats max_alloc goroutines at =
        if max_alloc == 0
        then with_details (short_details stats) (healthy at (bytes "memory stats unavailable"))
        else with_details (all_details stats max_alloc (usage_ratio stats max_alloc) goroutines)
            (judge at (usage_ratio stats max_alloc))

    abbrev pub unless_done : Option Err → W → Result
    unless_done (some err) w = unhealthy (h.now w) (bytes "context cancelled") (some err)
    unless_done none w =
        let stats = h.read_mem_stats w in
        measured stats (max_alloc_of config stats) (h.num_goroutine w) (h.now w)

    unfoldable pub check : Option Instant → W → Result × W
    unfolding usage_ratio healthy degraded unhealthy with_details
    check ctx w = (unless_done (h.done ctx w) w, w)

    unfoldable pub as_checker : Checker W
    as_checker = record { name = bytes "memory"; check = check }
