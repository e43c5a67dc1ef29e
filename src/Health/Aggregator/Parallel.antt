-- ===== src/Health/Aggregator/Parallel.antt =====
-- Checks in parallel and in sequence come to the same overall status.
use toolops.Base.{
  All-Memᴰ, ◌≡◌, refl, ap, sym, ◌∙◌, Bool, true, false, [], ◌∷◌, All, Memᴰ, Option, arith,
  if◌then◌else◌, is_empty, Bool-cases, Option-cases, inl, inr,
}
use toolops.Base.Text.{Text, ◌=ᵗ◌}
use toolops.Base.Time.{Instant, add}
use toolops.Base.StringMap.{StringMap, lookup, insert}
use toolops.Base.StringMap.Unique.{has_key, Memᴰ-has_key, lookup-Memᴰ}
use toolops.Health.Checker.{
  Status, status_healthy, status_degraded, status_unhealthy, unknown_status, Checker, Result,
}
use toolops.Health.Aggregator.{
  Aggregator, Host, overall_status, insert_all, run_each, run_all, check_all, jobs, run_check,
  with_timeout,
}
use toolops.Health.Aggregator.Overall.{
  Has, verdict, overall_status-verdict, unhealthy_in, degraded_in, unhealthy_in-Has,
  degraded_in-Has,
}
use toolops.Health.Aggregator.Results.{check_all-names}

abbrev pub same_status : Status → Status → Bool
same_status status_healthy status_healthy = true
same_status status_degraded status_degraded = true
same_status status_unhealthy status_unhealthy = true
same_status unknown_status unknown_status = true
same_status _ _ = false

same_status_found : (s t : Status) → same_status s t ≡ true → s ≡ t
same_status_found status_healthy t h = ground arith
same_status_found status_degraded t h = ground arith
same_status_found status_unhealthy t h = ground arith
same_status_found unknown_status t h = ground arith

same_test : (a b : Bool) → (a ≡ true → b ≡ true) → (b ≡ true → a ≡ true) → a ≡ b
same_test true b to from = sym (to refl)
same_test false true to from = from refl
same_test false false to from = refl

-- The aggregator with its choice of parallel checks replaced.
abbrev pub in_parallel : {W : Type 0} → Bool → Aggregator W → Aggregator W
in_parallel parallel a = record a {
  config = record { timeout = a.config.timeout; parallel = parallel };
}

module _ (status_of : Text → Status) where
  -- Whether a result has the status that goes with its name.
  abbrev pub expected : Text → Result → Bool
  expected name r = same_status r.status (status_of name)

  abbrev AreExpected : StringMap Result → Type 0
  AreExpected results = All (λ (e : Text × Result). expected e.0 e.1 ≡ true) results

  insert-AreExpected :
      (k : Text) (r : Result) (results : StringMap Result)
      → expected k r ≡ true
      → AreExpected results
      → AreExpected (insert k r results)
  unfolding insert
  insert-AreExpected k r [] fits all = (fits, tt)
  insert-AreExpected k r ((j, q) ∷ results) fits (first, rest) = elim (Bool-cases (j =ᵗ k)) [
    | inl same ↦ rw same (fits, rest)
    | inr other ↦ rw other (first, insert-AreExpected k r results fits rest)
  ]

  insert_all-AreExpected :
      (rs results : StringMap Result)
      → AreExpected rs
      → AreExpected results
      → AreExpected (insert_all rs results)
  unfolding insert_all
  insert_all-AreExpected [] results new all = all
  insert_all-AreExpected ((k, r) ∷ rs) results (first, new) all =
      insert_all-AreExpected rs (insert k r results) new (insert-AreExpected k r results first all)

  module _ {W : Type 0} (h : Host W) (ctx : Option Instant) where
    -- Each check has its status whenever it runs.
    abbrev pub AreSteady : StringMap (Checker W) → Type 0
    AreSteady checkers =
        All (λ (c : Text × Checker W). (w : W) → expected c.0 (run_check h ctx c.1 w).0 ≡ true)
          checkers

    run_each-AreExpected :
        (checkers : StringMap (Checker W)) (results : StringMap Result) (w : W)
        → AreSteady checkers
        → AreExpected results
        → AreExpected (run_each h ctx checkers results w).0
    unfolding run_each
    run_each-AreExpected [] results w steady all = all
    run_each-AreExpected ((k, c) ∷ checkers) results w (first, rest) all =
        run_each-AreExpected checkers _ _ rest
          (insert-AreExpected k (run_check h ctx c w).0 results (first w) all)

    steady-jobs :
        (checkers : StringMap (Checker W))
        → AreSteady checkers
        → All (λ j. (v : W) → expected j.0 (j.1 v).0 ≡ true) (jobs h ctx checkers)
    steady-jobs [] steady = tt
    steady-jobs ((k, c) ∷ checkers) (first, rest) = (first, steady-jobs checkers rest)

    run_all-AreExpected :
        (parallel : Bool) (checkers : StringMap (Checker W)) (w : W)
        → AreSteady checkers
        → AreExpected (run_all h parallel ctx checkers w).0
    unfolding run_all
    run_all-AreExpected true checkers w steady =
        insert_all-AreExpected (h.gather (jobs h ctx checkers) w).0 []
          (h.gather-each expected (jobs h ctx checkers) w (steady-jobs checkers steady)) tt
    run_all-AreExpected false checkers w steady = run_each-AreExpected checkers [] w steady tt

  run_unless_empty-AreExpected :
      {W : Type 0} (h : Host W) (parallel : Bool) (ctx : Option Instant)
      (checkers : StringMap (Checker W)) (w : W)
      → AreSteady h ctx checkers
      → AreExpected (if is_empty checkers then ([], w) else run_all h parallel ctx checkers w).0
  run_unless_empty-AreExpected h parallel ctx [] w steady = tt
  run_unless_empty-AreExpected h parallel ctx (c ∷ checkers) w steady =
      run_all-AreExpected h ctx parallel (c ∷ checkers) w steady

  AreExpected-status :
      (n : Text) (r : Result) (results : StringMap Result)
      → AreExpected results
      → Memᴰ (n, r) results
      → r.status ≡ status_of n
  AreExpected-status n r results all listed =
      same_status_found r.status (status_of n)
        (All-Memᴰ (λ (e : Text × Result). expected e.0 e.1 ≡ true) listed all)

  -- Results with the same names, all with the status that goes with the name, have the same statuses.
  same-Has :
      (s : Status) (rs qs : StringMap Result)
      → AreExpected rs
      → AreExpected qs
      → ((n : Text) → has_key n rs ≡ has_key n qs)
      → Has s rs
      → Has s qs
  same-Has s rs qs all_rs all_qs names has = elim (Option-cases (lookup has.entry.0 qs)) [
    | inl missing ↦ absurd (ground (arith, missing, names has.entry.0, Memᴰ-has_key has.listed))
    | inr (q, found) ↦
        let listed : Memᴰ (has.entry.0, q) qs = lookup-Memᴰ has.entry.0 q qs found in
        record {
          entry = (has.entry.0, q);
          listed = listed;
          status =
              AreExpected-status has.entry.0 q qs all_qs listed
              ∙ sym (AreExpected-status has.entry.0 has.entry.1 rs all_rs has.listed)
              ∙ has.status;
        }
  ]

  overall_status_same :
      (rs qs : StringMap Result)
      → AreExpected rs
      → AreExpected qs
      → ((n : Text) → has_key n rs ≡ has_key n qs)
      → overall_status rs ≡ overall_status qs
  overall_status_same rs qs all_rs all_qs names =
      let u =
        same_test (unhealthy_in rs) (unhealthy_in qs)
          (λ h.
            (unhealthy_in-Has qs).1
              (same-Has status_unhealthy rs qs all_rs all_qs names ((unhealthy_in-Has rs).0 h)))
          (λ h. (unhealthy_in-Has rs).1 (
            same-Has status_unhealthy qs rs all_qs all_rs (λ n. sym (names n))
              ((unhealthy_in-Has qs).0 h))) in
      let d =
        same_test (degraded_in rs) (degraded_in qs)
          (λ h.
            (degraded_in-Has qs).1
              (same-Has status_degraded rs qs all_rs all_qs names ((degraded_in-Has rs).0 h)))
          (λ h. (degraded_in-Has rs).1 (
            same-Has status_degraded qs rs all_qs all_rs (λ n. sym (names n))
              ((degraded_in-Has qs).0 h))) in
      overall_status-verdict rs
      ∙ ap (λ b. verdict b (degraded_in rs)) u
      ∙ ap (verdict (unhealthy_in qs)) d
      ∙ sym (overall_status-verdict qs)

  -- Where each check has one status whenever it runs under the deadline of the whole, checks in parallel, whatever the
  -- order in which their results come, and checks in sequence come to the same overall status.
  pub check_all-parallel :
      {W : Type 0} (h : Host W) (ctx : Option Instant) (a : Aggregator W) (w : W)
      → AreSteady h (with_timeout ctx (add (h.now w) a.config.timeout)) a.checkers
      → overall_status (check_all h ctx (in_parallel true a) w).0
        ≡ overall_status (check_all h ctx (in_parallel false a) w).0
  unfolding check_all
  check_all-parallel h ctx a w steady =
      let deadline = with_timeout ctx (add (h.now w) a.config.timeout) in
      overall_status_same _ _ (run_unless_empty-AreExpected h true deadline a.checkers w steady)
        (run_unless_empty-AreExpected h false deadline a.checkers w steady)
        (λ n.
          check_all-names h ctx (in_parallel true a) w n
          ∙ sym (check_all-names h ctx (in_parallel false a) w n))
