-- ===== src/Resilience/Bulkhead/Sources.antt =====
-- Where the errors of an operation in a bulkhead come from.
use toolops.Base.{◌≡◌, refl, ap, Option, none, some, arith, subst, if_elim}
use toolops.Base.Int.{pos, leb_ℤ}
use toolops.Base.Time.{Duration}
use toolops.Resilience.Operation.{Err, err_bulkhead_full, returned, Operation}
use toolops.Resilience.Bulkhead.{
  Host, Woken, sent, timed_out, done, has_room, woken, acquire, enter, execute,
}

module _ {W : Type 0} (h : Host W) where
  open h use {bulkhead}

  -- The full bulkhead, or the end of the context in the wait for a slot.
  pub data Refusal : Err → Type 0 where
    full : Refusal err_bulkhead_full
    cut_short : {err : Err} (d : Duration) (w : W) → (h.wait_slot d w).0 ≡ done err → Refusal err

  abbrev AreRefusals : Option Err × W → Type 0
  AreRefusals r = (err : Err) → r.0 ≡ some err → Refusal err

  woken-AreRefusals :
      (d : Duration) (w : W) (r : Woken × W) → h.wait_slot d w ≡ r → AreRefusals (woken h r)
  woken-AreRefusals d w (sent, v) ran err is = cc
  woken-AreRefusals d w (timed_out, v) ran err is = subst Refusal (ground (arith, is)) full
  woken-AreRefusals d w (done e, v) ran err is =
      subst Refusal (ground (arith, is)) (cut_short d w (ap (λ r. r.0) ran))

  acquire-AreRefusals : (w : W) → AreRefusals (acquire h w)
  unfolding acquire
  acquire-AreRefusals w =
      if_elim AreRefusals (has_room (bulkhead.get w)) _ _ (λ err is. cc)
        (if_elim AreRefusals (leb_ℤ (bulkhead.get w).max_wait (pos 0)) _ _
          (λ err is. subst Refusal (ground (arith, is)) full)
          (woken-AreRefusals (bulkhead.get w).max_wait w _ refl))

  module _ (P : Err → Type 0) (op : Operation W)
      (sourced : (w : W) (err : Err) → (op w).0 ≡ returned (some err) → P err)
      (refused : (err : Err) → Refusal err → P err) where
    enter-sourced :
        (r : Option Err × W)
        → AreRefusals r
        → (err : Err) → (enter h op r).0 ≡ returned (some err)
        → P err
    enter-sourced (none, w) own err is = sourced w err is
    enter-sourced (some e, w) own err is = refused err (own err (ground (arith, is)))

    pub execute-sourced : (w : W) (err : Err) → (execute h op w).0 ≡ returned (some err) → P err
    unfolding execute
    execute-sourced w err is = enter-sourced (acquire h w) (acquire-AreRefusals w) err is
