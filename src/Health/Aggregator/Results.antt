-- ===== src/Health/Aggregator/Results.antt =====
-- Which names have a result after a check of all, and that none has two.
use toolops.Base.{
  ◌≡◌, refl, ◌∙◌, Bool, true, false, ◌||◌, Option, is_some, [], ◌∷◌, map, arith, if◌then◌else◌,
  is_empty,
}
use toolops.Base.Text.{Text, member}
use toolops.Base.Time.{Instant, add}
use toolops.Base.StringMap.{StringMap, lookup, insert}
use toolops.Base.StringMap.Unique.{has_key, has_key-insert, member-keys, Unique, insert-Unique}
use toolops.Health.Checker.{Checker, Result}
use toolops.Health.Aggregator.{
  Aggregator, Host, insert_all, run_each, run_all, check_all, jobs, run_check, with_timeout,
}

has_key-insert_all :
    (n : Text) (rs results : StringMap Result)
    → has_key n (insert_all rs results) ≡ has_key n rs || has_key n results
unfolding insert_all lookup
has_key-insert_all n [] results = refl
has_key-insert_all n ((k, r) ∷ rs) results =
    ground (arith, has_key-insert_all n rs (insert k r results), has_key-insert n k r results)

insert_all-Unique :
    (rs results : StringMap Result) → Unique results → Unique (insert_all rs results)
unfolding insert_all
insert_all-Unique [] results unique = unique
insert_all-Unique ((k, r) ∷ rs) results unique =
    insert_all-Unique rs (insert k r results) (insert-Unique k r results unique)

module _ {W : Type 0} (h : Host W) where
  has_key-run_each :
      (n : Text) (ctx : Option Instant) (checkers : StringMap (Checker W))
      (results : StringMap Result) (w : W)
      → has_key n (run_each h ctx checkers results w).0 ≡ has_key n checkers || has_key n results
  unfolding run_each lookup
  has_key-run_each n ctx [] results w = refl
  has_key-run_each n ctx ((k, c) ∷ checkers) results w =
      has_key-run_each n ctx checkers _ _
      ∙ ground (arith, has_key-insert n k (run_check h ctx c w).0 results)

  member-jobs :
      (n : Text) (ctx : Option Instant) (checkers : StringMap (Checker W))
      → member n (map (λ j. j.0) (jobs h ctx checkers)) ≡ has_key n checkers
  unfolding member lookup
  member-jobs n ctx [] = refl
  member-jobs n ctx ((k, c) ∷ checkers) = ground (arith, member-jobs n ctx checkers)

  has_key-run_all :
      (n : Text) (parallel : Bool) (ctx : Option Instant) (checkers : StringMap (Checker W)) (w : W)
      → has_key n (run_all h parallel ctx checkers w).0 ≡ has_key n checkers
  unfolding run_all lookup
  has_key-run_all n true ctx checkers w =
      let gathered = (h.gather (jobs h ctx checkers) w).0 in
      ground (
        arith,
        has_key-insert_all n gathered [],
        member-keys n gathered,
        h.gather-names (jobs h ctx checkers) w n,
        member-jobs n ctx checkers,
      )
  has_key-run_all n false ctx checkers w = ground (arith, has_key-run_each n ctx checkers [] w)

  run_unless_empty :
      (checkers : StringMap (Checker W)) (parallel : Bool) (ctx : Option Instant) (w : W) (n : Text)
      → has_key n (if is_empty checkers then ([], w) else run_all h parallel ctx checkers w).0
        ≡ has_key n checkers
  unfolding lookup
  run_unless_empty [] parallel ctx w n = refl
  run_unless_empty (c ∷ checkers) parallel ctx w n = has_key-run_all n parallel ctx (c ∷ checkers) w

  -- CheckAll has a result for exactly the names that have a checker, in parallel or in sequence, and
  -- whether or not checks time out.
  pub check_all-names :
      (ctx : Option Instant) (a : Aggregator W) (w : W) (n : Text)
      → is_some (lookup n (check_all h ctx a w).0) ≡ is_some (lookup n a.checkers)
  unfolding check_all
  check_all-names ctx a w n =
      run_unless_empty a.checkers a.config.parallel
        (with_timeout ctx (add (h.now w) a.config.timeout)) w n

  run_each-Unique :
      (ctx : Option Instant) (checkers : StringMap (Checker W)) (results : StringMap Result) (w : W)
      → Unique results
      → Unique (run_each h ctx checkers results w).0
  unfolding run_each
  run_each-Unique ctx [] results w unique = unique
  run_each-Unique ctx ((k, c) ∷ checkers) results w unique =
      run_each-Unique ctx checkers _ _ (insert-Unique k (run_check h ctx c w).0 results unique)

  run_unless_empty-Unique :
      (checkers : StringMap (Checker W)) (parallel : Bool) (ctx : Option Instant) (w : W)
      → Unique (if is_empty checkers then ([], w) else run_all h parallel ctx checkers w).0
  unfolding run_all
  run_unless_empty-Unique [] parallel ctx w = tt
  run_unless_empty-Unique (c ∷ checkers) true ctx w =
      insert_all-Unique (h.gather (jobs h ctx (c ∷ checkers)) w).0 [] tt
  run_unless_empty-Unique (c ∷ checkers) false ctx w = run_each-Unique ctx (c ∷ checkers) [] w tt

  pub check_all-Unique :
      (ctx : Option Instant) (a : Aggregator W) (w : W) → Unique (check_all h ctx a w).0
  unfolding check_all
  check_all-Unique ctx a w =
      run_unless_empty-Unique a.checkers a.config.parallel
        (with_timeout ctx (add (h.now w) a.config.timeout)) w
