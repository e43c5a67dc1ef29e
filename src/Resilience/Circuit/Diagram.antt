-- ===== src/Resilience/Circuit/Diagram.antt =====
-- The state diagram of the breaker, and OnStateChange as a faithful record of the path through it.
use toolops.Base.{◌≡◌, refl, sym, ◌∙◌, true, arith, List, [], ◌∷◌, ◌++◌, subst}
use toolops.Resilience.Circuit.{
  State, state_closed, state_open, state_half_open, CircuitBreaker, Change, before_request,
  after_request, state_of, reset, metrics,
}
use toolops.Resilience.Circuit.Invariant.{
  Call, before, after, read_state, read_metrics, reset_all, call, calls,
}

-- The edges of the diagram; Reset adds the one from open to closed.
pub data Edge : State → State → Type 0 where
  trip : Edge state_closed state_open
  probe : Edge state_open state_half_open
  fail : Edge state_half_open state_open
  recover : Edge state_half_open state_closed
  restart : Edge state_open state_closed

ruleset edges = (trip, probe, fail, recover, restart)

-- The changes lead from one state to another along edges of the diagram, with no gap.
abbrev pub IsPath : State → List Change → State → Type 0
IsPath s [] t = s ≡ t
IsPath s ((a, b) ∷ changes) t = (s ≡ a) × Edge a b × IsPath b changes t

IsPath-append :
    (s t u : State) (xs ys : List Change) → IsPath s xs t → IsPath t ys u → IsPath s (xs ++ ys) u
IsPath-append s t u [] ys p q = subst (λ x. IsPath x ys u) (sym p) q
IsPath-append s t u ((a, b) ∷ xs) ys (e, d, p) q = (e, d, IsPath-append b t u xs ys p q)

call-IsPath :
    (c : Call) (cb : CircuitBreaker)
    → cb.on_state_change ≡ true
    → IsPath cb.state (call c cb).1 (call c cb).0.state
unfolding call before_request after_request state_of metrics reset
call-IsPath (before now) cb h = grind (arith, edges)
call-IsPath (after now err) cb h = grind (arith, edges)
call-IsPath (read_state now) cb h = grind (arith, edges)
call-IsPath (read_metrics now) cb h = grind (arith, edges)
call-IsPath reset_all cb h = grind (arith, edges)

call-on_state_change :
    (c : Call) (cb : CircuitBreaker) → (call c cb).0.on_state_change ≡ cb.on_state_change
unfolding call before_request after_request state_of metrics reset
call-on_state_change (before now) cb = ground arith
call-on_state_change (after now err) cb = ground arith
call-on_state_change (read_state now) cb = ground arith
call-on_state_change (read_metrics now) cb = ground arith
call-on_state_change reset_all cb = ground arith

-- With OnStateChange set, its calls over any sequence of method calls are a path without gaps along
-- the edges of the state diagram, from the first state to the last.
pub calls-IsPath :
    (cs : List Call) (cb : CircuitBreaker)
    → cb.on_state_change ≡ true
    → IsPath cb.state (calls cs cb).1 (calls cs cb).0.state
unfolding calls
calls-IsPath [] cb h = refl
calls-IsPath (c ∷ cs) cb h =
    IsPath-append cb.state _ _ (call c cb).1 _ (call-IsPath c cb h)
      (calls-IsPath cs (call c cb).0 (call-on_state_change c cb ∙ h))
