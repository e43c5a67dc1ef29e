-- ===== src/Resilience/Circuit/Sources.antt =====
-- Where the errors of an operation behind a breaker come from.
use toolops.Base.{◌≡◌, refl, sym, ◌∙◌, Option, none, some, arith, subst, List}
use toolops.Base.Time.{Instant}
use toolops.Resilience.Operation.{Err, err_circuit_open, Outcome, returned, panicked, Operation}
use toolops.Resilience.Circuit.{
  State, state_closed, state_open, state_half_open, CircuitBreaker, Change, Host, admit,
  before_request, finish, proceed, execute,
}

admit_refused :
    (s : State) (cb : CircuitBreaker) (err : Err)
    → (admit s cb).1 ≡ some err
    → err ≡ err_circuit_open
unfolding admit
admit_refused state_closed cb err is = cc
admit_refused state_open cb err is = ground (arith, is)
admit_refused state_half_open cb err is = ground (arith, is)

before_request_refused :
    (now : Instant) (cb : CircuitBreaker) (err : Err)
    → (before_request now cb).1 ≡ some err
    → err ≡ err_circuit_open
unfolding before_request
before_request_refused now cb err is = ground (arith, is)

module _ {W : Type 0} (h : Host W) (P : Err → Type 0) (op : Operation W)
    (sourced : (w : W) (err : Err) → (op w).0 ≡ returned (some err) → P err)
    (refused : P err_circuit_open) where
  finish_same : (r : Outcome × W) → (finish h r).0 ≡ r.0
  unfolding finish
  finish_same (panicked, w) = refl
  finish_same (returned err, w) = refl

  proceed-sourced :
      (w : W) (r : CircuitBreaker × Option Err × List Change)
      → ((err : Err) → r.1 ≡ some err → err ≡ err_circuit_open)
      → (err : Err) → (proceed h op w r).0 ≡ returned (some err)
      → P err
  unfolding proceed
  proceed-sourced w (cb, none, changes) own err is =
      sourced (h.notified changes (h.breaker.put cb w)) err
        (sym (finish_same (op (h.notified changes (h.breaker.put cb w)))) ∙ is)
  proceed-sourced w (cb, some e, changes) own err is =
      subst P (sym (own err (ground (arith, is)))) refused

  pub execute-sourced : (w : W) (err : Err) → (execute h op w).0 ≡ returned (some err) → P err
  unfolding execute
  execute-sourced w err is =
      proceed-sourced w _ (before_request_refused (h.now w) (h.breaker.get w)) err is
