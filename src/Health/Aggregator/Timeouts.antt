-- ===== src/Health/Aggregator/Timeouts.antt =====
-- A check that times out, in a check of all in sequence.
use toolops.Base.{
  ◌≡◌, refl, ap, sym, subst, ◌∙◌, Bool, true, false, Option, some, [], ◌∷◌, map, Memᴰ, arith,
  if◌then◌else◌, is_empty, Bool-cases, inl, inr,
}
use toolops.Base.Text.{IsUnique, Text, ◌=ᵗ◌, =ᵗ_iff, member}
use toolops.Base.Time.{Instant, add}
use toolops.Base.StringMap.{StringMap, lookup, lookup-insert}
use toolops.Health.Checker.{Checker, Result, status_unhealthy}
use toolops.Health.Aggregator.{
  Aggregator, Host, Waited, timed_out, reported, settle_check, run_each, run_all, check_all,
  run_check, with_timeout, overall_status,
}
use toolops.Health.Aggregator.Overall.{Has, overall_status_iff}

-- A result that is found under the name, and is unhealthy.
record IsUnhealthyAt (name : Text) (results : StringMap Result) : Type 0 where
  entry : Result
  found : lookup name results ≡ some entry
  status : entry.status ≡ status_unhealthy

IsUnhealthyAt-Has :
    (name : Text) (results : StringMap Result)
    → IsUnhealthyAt name results
    → Has status_unhealthy results
unfolding lookup
IsUnhealthyAt-Has name [] r = absurd (ground (arith, r.found))
IsUnhealthyAt-Has name ((k, e) ∷ results) r = elim (Bool-cases (k =ᵗ name)) [
  | inl same ↦ record {
    entry = (k, e);
    listed = Memᴰ.head refl;
    status =
        let found_here : r.entry ≡ e = ground (arith, r.found, same) in
        ap (λ (x : Result). x.status) (sym found_here) ∙ r.status;
  }
  | inr other ↦
      let has =
        IsUnhealthyAt-Has name results
          (record { entry = r.entry; found = ground (arith, r.found, other); status = r.status }) in
      record { entry = has.entry; listed = Memᴰ.tail has.listed; status = has.status }
]

module _ {W : Type 0} (h : Host W) where
  settle_check_unhealthy :
      (start : Instant) (r : Waited × W)
      → r.0 ≡ timed_out
      → (settle_check h start r).0.status ≡ status_unhealthy
  settle_check_unhealthy start (timed_out, w) e = refl
  settle_check_unhealthy start (reported r at, w) e = absurd (ground (arith, e))

  run_each_other :
      (name : Text) (ctx : Option Instant) (checkers : StringMap (Checker W))
      (results : StringMap Result) (w : W)
      → member name (map (λ c. c.0) checkers) ≡ false
      → lookup name (run_each h ctx checkers results w).0 ≡ lookup name results
  unfolding run_each member
  run_each_other name ctx [] results w new = refl
  run_each_other name ctx ((k, c) ∷ checkers) results w new =
      run_each_other name ctx checkers _ _ (ground (arith, new))
      ∙ ground (arith, lookup-insert k name (run_check h ctx c w).0 results, new)

  -- The checker times out whenever it is run.
  abbrev pub IsStuck : Checker W → Type 0
  IsStuck c = (ctx : Option Instant) (w : W) → (h.race ctx c w).0 ≡ timed_out

  run_check_stuck :
      (ctx : Option Instant) (c : Checker W) (w : W)
      → IsStuck c
      → (run_check h ctx c w).0.status ≡ status_unhealthy
  unfolding run_check
  run_check_stuck ctx c w stuck = settle_check_unhealthy (h.now w) (h.race ctx c w) (stuck ctx w)

  run_each_stuck :
      (name : Text) (c : Checker W) (ctx : Option Instant) (checkers : StringMap (Checker W))
      (results : StringMap Result) (w : W)
      → IsStuck c
      → IsUnique (map (λ e. e.0) checkers)
      → lookup name checkers ≡ some c
      → IsUnhealthyAt name (run_each h ctx checkers results w).0
  unfolding run_each lookup
  run_each_stuck name c ctx [] results w stuck unique known = absurd (ground (arith, known))
  run_each_stuck name c ctx ((k, d) ∷ checkers) results w stuck (new, unique) known =
      elim (Bool-cases (k =ᵗ name)) [
        | inl same ↦ record {
          entry = (run_check h ctx d w).0;
          found =
              run_each_other name ctx checkers _ _ (
                subst (λ n. member n (map (λ e. e.0) checkers) ≡ false) ((=ᵗ_iff k name).0 same)
                  new)
              ∙ lookup-insert k name (run_check h ctx d w).0 results
              ∙ ground (arith, same);
          status = run_check_stuck ctx d w (subst IsStuck (ground (arith, known, same)) stuck);
        }
        | inr other ↦
            run_each_stuck name c ctx checkers _ _ stuck unique (ground (arith, known, other))
      ]

  run_all_stuck :
      (name : Text) (c : Checker W) (parallel : Bool) (ctx : Option Instant)
      (checkers : StringMap (Checker W)) (w : W)
      → parallel ≡ false
      → IsStuck c
      → IsUnique (map (λ e. e.0) checkers)
      → lookup name checkers ≡ some c
      → overall_status (if is_empty checkers then ([], w) else run_all h parallel ctx checkers w).0
        ≡ status_unhealthy
  unfolding run_all lookup
  run_all_stuck name c parallel ctx [] w sequence stuck unique known =
      absurd (ground (arith, known))
  run_all_stuck name c true ctx (e ∷ es) w sequence stuck unique known =
      absurd (ground (arith, sequence))
  run_all_stuck name c false ctx (e ∷ es) w sequence stuck unique known =
      let (u, _, _) = overall_status_iff (run_each h ctx (e ∷ es) [] w).0 in
      u.1 (IsUnhealthyAt-Has name _ (run_each_stuck name c ctx (e ∷ es) [] w stuck unique known))

  -- Checks in sequence: where a registered checker times out whenever it is run, the overall status is
  -- unhealthy. (The names of a map are different.)
  pub check_all_stuck :
      (name : Text) (c : Checker W) (ctx : Option Instant) (a : Aggregator W) (w : W)
      → a.config.parallel ≡ false
      → IsStuck c
      → IsUnique (map (λ e. e.0) a.checkers)
      → lookup name a.checkers ≡ some c
      → overall_status (check_all h ctx a w).0 ≡ status_unhealthy
  unfolding check_all
  check_all_stuck name c ctx a w sequence stuck unique known =
      run_all_stuck name c a.config.parallel (with_timeout ctx (add (h.now w) a.config.timeout))
        a.checkers w sequence stuck unique known
