-- ===== src/Resilience/RateLimit/Sources.antt =====
-- Where the errors of a rate limited operation come from.
use toolops.Base.{◌≡◌, refl, ap, ◌∙◌, Bool, true, false, Option, none, some, arith, subst, if_elim}
use toolops.Base.Int.{ℤ, pos}
use toolops.Base.Time.{Duration}
use toolops.Base.Float.{Float64}
use toolops.Resilience.Operation.{Err, err_rate_limit_exceeded, returned, Operation}
use toolops.Resilience.RateLimit.{
  Host, allow_in, retry_allow, waited, first_allow, check_context, wait_n, wait_time, admit, run_if,
  execute,
}

module _ (f : Float64) {W : Type 0} (h : Host f W) where
  -- The refusal, the end of the context before the wait, or during it.
  pub data Refusal : Err → Type 0 where
    exceeded : Refusal err_rate_limit_exceeded
    ended : {err : Err} (w : W) → h.ctx_err w ≡ some err → Refusal err
    cut_short : {err : Err} (d : Duration) (w : W) → (h.wait d w).0 ≡ some err → Refusal err

  abbrev AreRefusals : Option Err × W → Type 0
  AreRefusals r = (err : Err) → r.0 ≡ some err → Refusal err

  retry_allow-AreRefusals : (r : Bool × W) → AreRefusals (retry_allow f h r)
  retry_allow-AreRefusals (true, w) err is = cc
  retry_allow-AreRefusals (false, w) err is = subst Refusal (ground (arith, is)) exceeded

  waited-AreRefusals :
      (n : ℤ) (d : Duration) (w : W) (r : Option Err × W)
      → h.wait d w ≡ r
      → AreRefusals (waited f h n r)
  waited-AreRefusals n d w (none, v) ran err is = retry_allow-AreRefusals (allow_in f h n v) err is
  waited-AreRefusals n d w (some e, v) ran err is = cut_short d w (ap (λ r. r.0) ran ∙ is)

  first_allow-AreRefusals : (n : ℤ) (r : Bool × W) → AreRefusals (first_allow f h n r)
  first_allow-AreRefusals n (true, w) err is = cc
  first_allow-AreRefusals n (false, w) err is =
      waited-AreRefusals n (wait_time f n (h.limiter.get w)) w _ refl err is

  check_context-AreRefusals :
      (n : ℤ) (w : W) (o : Option Err) → h.ctx_err w ≡ o → AreRefusals (check_context f h n o w)
  check_context-AreRefusals n w none ran err is =
      first_allow-AreRefusals n (allow_in f h n w) err is
  check_context-AreRefusals n w (some e) ran err is = ended w (ran ∙ is)

  admit-AreRefusals : (w : W) → AreRefusals (admit f h w)
  unfolding wait_n
  admit-AreRefusals w =
      if_elim AreRefusals (h.limiter.get w).config.wait_on_limit _ _
        (check_context-AreRefusals (pos 1) w _ refl)
        (retry_allow-AreRefusals (allow_in f h (pos 1) w))

  module _ (P : Err → Type 0) (op : Operation W)
      (sourced : (w : W) (err : Err) → (op w).0 ≡ returned (some err) → P err)
      (refused : (err : Err) → Refusal err → P err) where
    run_if-sourced :
        (r : Option Err × W)
        → AreRefusals r
        → (err : Err) → (run_if f h op r).0 ≡ returned (some err)
        → P err
    run_if-sourced (none, w) own err is = sourced w err is
    run_if-sourced (some e, w) own err is = refused err (own err (ground (arith, is)))

    pub execute-sourced : (w : W) (err : Err) → (execute f h op w).0 ≡ returned (some err) → P err
    unfolding execute
    execute-sourced w err is = run_if-sourced (admit f h w) (admit-AreRefusals w) err is
