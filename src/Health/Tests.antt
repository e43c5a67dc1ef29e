-- ===== src/Health/Tests.antt =====
-- The theorems of package health at concrete inputs.
pub mod Thresholds
pub mod Probes
pub mod Runs
use toolops.Base.{
  All, Bool, false, ℕ, ◌≡◌, ◌↔◌, refl, true, none, is_some, List, [], ◌∷◌, arith, map,
}
use toolops.Base.Int.{pos}
use toolops.Base.Text.{Text, bytes, member}
use toolops.Base.StringMap.{StringMap, lookup}
use toolops.Health.Checker.{
  Checker, Result, healthy, unhealthy, status_healthy, status_degraded, status_unhealthy,
}
use toolops.Health.Aggregator.{
  Aggregator, Host, new_aggregator, overall_status, check_all, timed_out,
}
use toolops.Health.Aggregator.Overall.{Has, overall_status_iff}
use toolops.Health.Aggregator.Registry.{
  Edit, registers, unregisters, edits, IsConsistent, edits_new-IsConsistent,
}
use toolops.Health.Aggregator.Results.{check_all-names}
use toolops.Health.Aggregator.Timeouts.{check_all_stuck}
use toolops.Base.Text.{◌=ᵗ◌}

abbrev pub up : Checker ℕ
up = record { name = bytes "up"; check = λ ctx w. (healthy 5 (bytes "fine"), w) }

abbrev pub down : Checker ℕ
down = record { name = bytes "down"; check = λ ctx w. (unhealthy 5 (bytes "gone") none, w) }

abbrev some_edits : List (Edit ℕ)
some_edits =
    registers (bytes "b") up
    ∷ registers (bytes "a") down
    ∷ registers (bytes "b") down
    ∷ unregisters (bytes "a")
    ∷ []

abbrev two_results : StringMap Result
two_results =
    (bytes "a", healthy 1 (bytes "fine")) ∷ (bytes "b", unhealthy 2 (bytes "gone") none) ∷ []

edits_new-IsConsistent_example : IsConsistent (edits some_edits (new_aggregator []))
edits_new-IsConsistent_example = edits_new-IsConsistent some_edits []

overall_status_iff_example :
    ((overall_status two_results ≡ status_unhealthy) ↔ Has status_unhealthy two_results)
    × ((overall_status two_results ≡ status_degraded)
        ↔ (Has status_degraded two_results × ¬ Has status_unhealthy two_results))
    × ((overall_status two_results ≡ status_healthy)
        ↔ (¬ Has status_degraded two_results × ¬ Has status_unhealthy two_results))
overall_status_iff_example = overall_status_iff two_results

abbrev pub Job : Type 0
Job = Text × (ℕ → Result × ℕ)

-- Runs each job in the same world.
abbrev pub run_apart : ℕ → List Job → StringMap Result
run_apart w [] = []
run_apart w ((name, job) ∷ jobs) = (name, (job w).0) ∷ run_apart w jobs

pub run_apart-names :
    (w : ℕ) (jobs : List Job) (name : Text)
    → member name (map {A = Text × Result} (λ r. r.0) (run_apart w jobs))
      ≡ member name (map {A = Job} (λ j. j.0) jobs)
unfolding member
run_apart-names w [] name = refl
run_apart-names w (j ∷ jobs) name = ground (arith, run_apart-names w jobs name)

pub run_apart-each :
    (p : Text → Result → Bool) (w : ℕ) (jobs : List Job)
    → All (λ (j : Job). (v : ℕ) → p j.0 (j.1 v).0 ≡ true) jobs
    → All (λ (e : Text × Result). p e.0 e.1 ≡ true) (run_apart w jobs)
run_apart-each p w [] each = tt
run_apart-each p w (j ∷ jobs) (first, rest) = (first w, run_apart-each p w jobs rest)

-- A world that is the clock, and in which no check is waited for and each check of a
-- parallel run starts in the same world.
abbrev pub impatient : Host ℕ
impatient = record {
  now = λ w. w;
  race = λ ctx c w. (timed_out, w);
  gather = λ jobs w. (run_apart w jobs, w);
  gather-names = λ jobs w name. run_apart-names w jobs name;
  gather-each = λ p jobs w each. run_apart-each p w jobs each;
}

abbrev pub site : Aggregator ℕ
site = record {
  config = record { timeout = pos 10; parallel = true };
  checkers = (bytes "a", up) ∷ (bytes "b", down) ∷ [];
  order = bytes "a" ∷ bytes "b" ∷ [];
}
