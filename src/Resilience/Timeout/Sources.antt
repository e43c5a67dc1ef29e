-- ===== src/Resilience/Timeout/Sources.antt =====
-- Where the errors of an operation with a timeout come from.
use toolops.Base.{◌≡◌, refl, ◌∙◌, some, arith, subst}
use toolops.Base.Time.{Duration}
use toolops.Resilience.Operation.{
  Err, err_circuit_open, err_max_retries_exceeded, err_rate_limit_exceeded, err_bulkhead_full,
  err_timeout, canceled, deadline_exceeded, other, returned, Operation,
}
use toolops.Resilience.Timeout.{TimeoutConfig, Host, Raced, finished, expired, settle, execute}

module _ {W : Type 0} (h : Host W) where
  -- ErrTimeout, or the error of a context that ended otherwise.
  pub data Expiry : Err → Type 0 where
    timed_out : Expiry err_timeout
    ended :
        {err : Err} (d : Duration) (op : Operation W) (w : W)
        → (h.race d op w).0 ≡ expired err
        → Expiry err

  expired-Expiry :
      (d : Duration) (op : Operation W) (w : W) (e err : Err)
      → (h.race d op w).0 ≡ expired e
      → settle (expired e) ≡ returned (some err)
      → Expiry err
  expired-Expiry d op w deadline_exceeded err ran is = subst Expiry (ground (arith, is)) timed_out
  expired-Expiry d op w canceled err ran is = subst Expiry (ground (arith, is)) (ended d op w ran)
  expired-Expiry d op w err_circuit_open err ran is =
      subst Expiry (ground (arith, is)) (ended d op w ran)
  expired-Expiry d op w err_max_retries_exceeded err ran is =
      subst Expiry (ground (arith, is)) (ended d op w ran)
  expired-Expiry d op w err_rate_limit_exceeded err ran is =
      subst Expiry (ground (arith, is)) (ended d op w ran)
  expired-Expiry d op w err_bulkhead_full err ran is =
      subst Expiry (ground (arith, is)) (ended d op w ran)
  expired-Expiry d op w err_timeout err ran is =
      subst Expiry (ground (arith, is)) (ended d op w ran)
  expired-Expiry d op w (other n) err ran is = subst Expiry (ground (arith, is)) (ended d op w ran)

  module _ (P : Err → Type 0) (op : Operation W)
      (sourced : (w : W) (err : Err) → (op w).0 ≡ returned (some err) → P err)
      (own : (err : Err) → Expiry err → P err) where
    settle-sourced :
        (d : Duration) (w : W) (r : Raced) (err : Err)
        → (h.race d op w).0 ≡ r
        → settle r ≡ returned (some err)
        → P err
    settle-sourced d w (finished o) err ran is =
        let (v, ended_so) = h.race-finished d op w o ran in sourced v err (ended_so ∙ is)
    settle-sourced d w (expired e) err ran is = own err (expired-Expiry d op w e err ran is)

    pub execute-sourced :
        (t : TimeoutConfig) (w : W) (err : Err) → (execute h t op w).0 ≡ returned (some err) → P err
    unfolding execute
    execute-sourced t w err is = settle-sourced t.timeout w _ err refl is
