-- ===== src/Health/Tests/Runs.antt =====
-- A run of two checks in parallel and in sequence.
use toolops.Base.{ℕ, ◌≡◌, refl, true, false, none, if◌then◌else◌}
use toolops.Base.Text.{Text, bytes, ◌=ᵗ◌}
use toolops.Base.StringMap.{insert}
use toolops.Health.Checker.{Status, status_healthy, status_unhealthy, healthy, unhealthy}
use toolops.Health.Aggregator.{Host, overall_status, check_all, run_check, reported}
use toolops.Health.Aggregator.Parallel.{in_parallel, check_all-parallel}
use toolops.Health.Tests.{impatient, site}

-- A world in which each check ends before its deadline.
abbrev prompt : Host ℕ
prompt = record impatient { race = λ ctx c w. (reported (c.check ctx w).0 w, w) }

abbrev status_of : Text → Status
status_of name = if name =ᵗ bytes "a" then status_healthy else status_unhealthy

check_all-parallel_example :
    overall_status (check_all prompt none (in_parallel true site) 7).0
    ≡ overall_status (check_all prompt none (in_parallel false site) 7).0
unfolding run_check healthy unhealthy ◌=ᵗ◌
check_all-parallel_example =
    check_all-parallel status_of prompt none site 7 (λ w. refl, (λ w. refl, tt))

unhealthy_run :
    overall_status (check_all prompt none (in_parallel false site) 7).0 ≡ status_unhealthy
unfolding overall_status check_all run_check healthy unhealthy ◌=ᵗ◌ insert
unhealthy_run = refl
