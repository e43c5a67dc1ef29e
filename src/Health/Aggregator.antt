-- ===== src/Health/Aggregator.antt =====
-- health/aggregator.go: named checkers and their overall status.
pub mod Registry
pub mod Overall
pub mod Results
pub mod Timeouts
pub mod Parallel
use toolops.Base.{
  ℕ, ◌*◌, ◌≡◌, Bool, true, false, ◌||◌, Option, none, some, is_some, List, [], ◌∷◌, ◌++◌, map, min,
  ◌⊎◌, inl, inr, is_empty, if◌then◌else◌, All,
}
use toolops.Base.Int.{ℤ, pos, or_default}
use toolops.Base.Time.{Instant, Duration, add, since, is_zero, second}
use toolops.Base.Text.{Text, bytes, ◌=ᵗ◌, member}
use toolops.Base.StringMap.{StringMap, lookup, insert, erase}
use toolops.Health.Checker.{
  Err, err_checker_not_found, err_check_timeout, Status, status_healthy, status_degraded,
  status_unhealthy, unknown_status, to_string, Detail, summary, Result, Checker,
}

pub record AggregatorConfig : Type 0 where
  pub timeout : Duration
  pub parallel : Bool

pub record Aggregator (W : Type 0) : Type 0 where
  pub config : AggregatorConfig
  pub checkers : StringMap (Checker W)
  pub order : List Text

abbrev or_defaults : List AggregatorConfig → AggregatorConfig
or_defaults [] = record { timeout = pos (10 * second); parallel = true }
or_defaults (config ∷ _) = record config { timeout = or_default config.timeout (10 * second) }

-- The loop of Unregister: the list without its first `name`.
unfoldable pub remove_first : Text → List Text → List Text
remove_first name [] = []
remove_first name (n ∷ ns) = if n =ᵗ name then ns else n ∷ remove_first name ns

module _ {W : Type 0} where
  unfoldable pub new_aggregator : List AggregatorConfig → Aggregator W
  new_aggregator configs = record { config = or_defaults configs; checkers = []; order = [] }

  unfoldable pub register : Text → Checker W → Aggregator W → Aggregator W
  register name checker a = record a {
    order = if is_some (lookup name a.checkers) then a.order else a.order ++ name ∷ [];
    checkers = insert name checker a.checkers;
  }

  unfoldable pub unregister : Text → Aggregator W → Aggregator W
  unfolding remove_first
  unregister name a = record a {
    checkers = erase name a.checkers;
    order = remove_first name a.order;
  }

  unfoldable pub checker_names : Aggregator W → List Text
  checker_names a = a.order

abbrev pub is_unhealthy : Status → Bool
is_unhealthy status_unhealthy = true
is_unhealthy _ = false

abbrev pub is_degraded : Status → Bool
is_degraded status_degraded = true
is_degraded _ = false

-- The loop of OverallStatus with its two flags, and what it returns.
pub scan : StringMap Result → Bool → Bool → Status
scan [] has_unhealthy has_degraded =
    if has_unhealthy
    then status_unhealthy
    else if has_degraded
    then status_degraded
    else status_healthy
scan ((_, r) ∷ results) has_unhealthy has_degraded =
    scan results (has_unhealthy || is_unhealthy r.status) (has_degraded || is_degraded r.status)

unfoldable pub overall_status : StringMap Result → Status
unfolding scan
overall_status results = if is_empty results then status_healthy else scan results false false

-- The case of the `select` in runCheck: the checker's result and when it came, or the end of the
-- context.
pub data Waited : Type 0 where
  reported : Result → Instant → Waited
  timed_out : Waited

-- What the runtime does: the clock, the goroutine and `select` of one check under a deadline, and the
-- goroutines of a parallel run, whose results come in some order, each under its name.
pub record Host (W : Type 0) : Type 0 where
  pub now : W → Instant
  pub race : Option Instant → Checker W → W → Waited × W
  pub gather : List (Text × (W → Result × W)) → W → StringMap Result × W
  pub gather-names :
      (jobs : List (Text × (W → Result × W))) (w : W) (name : Text)
      → member name (map (λ r. r.0) (gather jobs w).0) ≡ member name (map (λ j. j.0) jobs)
  -- What each job's result passes, whenever it runs, each gathered result passes.
  pub gather-each :
      (p : Text → Result → Bool) (jobs : List (Text × (W → Result × W))) (w : W)
      → All (λ j. (v : W) → p j.0 (j.1 v).0 ≡ true) jobs
      → All (λ e. p e.0 e.1 ≡ true) (gather jobs w).0

-- The deadline of context.WithTimeout.
abbrev pub with_timeout : Option Instant → Instant → Option Instant
with_timeout none t = some t
with_timeout (some deadline) t = some (min deadline t)

-- Results in the order in which they come, into the map.
pub insert_all : StringMap Result → StringMap Result → StringMap Result
insert_all [] results = results
insert_all ((name, r) ∷ rs) results = insert_all rs (insert name r results)

module _ {W : Type 0} (h : Host W) where
  open h use {now, race, gather}

  abbrev settle_check : Instant → Waited × W → Result × W
  settle_check start (reported r at, w) = (
    record r {
      duration = since at start;
      timestamp = if is_zero r.timestamp then start else r.timestamp;
    },
    w,
  )
  settle_check start (timed_out, w) = (
    record {
      status = status_unhealthy;
      message = bytes "check timed out";
      details = [];
      duration = since (now w) start;
      timestamp = start;
      error = some err_check_timeout;
    },
    w,
  )

  unfoldable pub run_check : Option Instant → Checker W → W → Result × W
  run_check ctx checker w = settle_check (now w) (race ctx checker w)

  abbrev check_found : Option Instant → Option (Checker W) → W → (Err ⊎ Result) × W
  check_found ctx none w = (inl err_checker_not_found, w)
  check_found ctx (some checker) w = let (r, w') = run_check ctx checker w in (inr r, w')

  -- Check; an error or a result.
  unfoldable pub check : Option Instant → Text → Aggregator W → W → (Err ⊎ Result) × W
  check ctx name a w = check_found ctx (lookup name a.checkers) w

  pub run_each :
      Option Instant → StringMap (Checker W) → StringMap Result → W → StringMap Result × W
  run_each ctx [] results w = (results, w)
  run_each ctx ((name, checker) ∷ checkers) results w =
      let (r, w') = run_check ctx checker w in run_each ctx checkers (insert name r results) w'

  -- A goroutine for each checker.
  abbrev pub jobs : Option Instant → StringMap (Checker W) → List (Text × (W → Result × W))
  jobs ctx checkers = map (λ c. (c.0, run_check ctx c.1)) checkers

  pub run_all : Bool → Option Instant → StringMap (Checker W) → W → StringMap Result × W
  unfolding insert_all run_each
  run_all true ctx checkers w =
      let (rs, w') = gather (jobs ctx checkers) w in (insert_all rs [], w')
  run_all false ctx checkers w = run_each ctx checkers [] w

  unfoldable pub check_all : Option Instant → Aggregator W → W → StringMap Result × W
  unfolding run_all
  check_all ctx a w =
      if is_empty a.checkers
      then ([], w)
      else run_all a.config.parallel (with_timeout ctx (add (now w) a.config.timeout)) a.checkers w

  abbrev detail_of : Text × Result → Text × Detail
  detail_of (name, r) = (name, summary (to_string r.status) r.message r.duration)

  abbrev message_of : Status → Text
  message_of status_healthy = bytes "all checks passed"
  message_of status_degraded = bytes "some checks degraded"
  message_of status_unhealthy = bytes "some checks failed"
  message_of unknown_status = []

  -- `Checker()`
  unfoldable pub as_checker : Aggregator W → Checker W
  as_checker a = record {
    name = bytes "aggregate";
    check = λ ctx w.
        let (results, w') = check_all ctx a w in
        (
          record {
            status = overall_status results;
            message = message_of (overall_status results);
            details = map detail_of results;
            duration = pos 0;
            timestamp = now w';
            error = none;
          },
          w',
        );
  }
