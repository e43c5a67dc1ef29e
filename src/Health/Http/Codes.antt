-- ===== src/Health/Http/Codes.antt =====
-- What the status codes of the probes say of the checks.
use toolops.Base.{
  ◌∙◌, ℕ, ◌≡◌, refl, sym, subst, ◌≢◌, inl, inr, ◌↔◌, Bool, true, false, Option, none, List, [], ◌∷◌,
  arith, Option-cases,
}
use toolops.Base.Time.{Instant}
use toolops.Base.Text.{Text}
use toolops.Base.StringMap.{StringMap, lookup}
use toolops.Health.Checker.{
  Status, status_healthy, status_degraded, status_unhealthy, unknown_status, Result,
}
use toolops.Health.Aggregator.{Aggregator, Host, overall_status, check, check_all, run_check}
use toolops.Health.Aggregator.Overall.{
  Has, overall_status_iff, overall_status-verdict, verdict, unhealthy_in, degraded_in,
}
use toolops.Health.Http.{
  Formats, Call, set_header, write_header, write, plain_calls, code_of, readiness_handler,
  single_check_handler, within,
}

-- The status code of a response: that of the first call that writes one, or before the first byte of
-- the body.
pub status_code : List Call → ℕ
status_code [] = 200
status_code (set_header key value ∷ calls) = status_code calls
status_code (write_header code ∷ calls) = code
status_code (write text ∷ calls) = 200

-- The codes for what OverallStatus can return.
abbrev pub AreCodes : Status → Type 0
AreCodes s =
    (status_code (plain_calls s) ≡ code_of s)
    × ((code_of s ≡ 503) ↔ (s ≡ status_unhealthy))
    × ((code_of s ≡ 200) ↔ (s ≢ status_unhealthy))

verdict-AreCodes : (u d : Bool) → AreCodes (verdict u d)
unfolding status_code
verdict-AreCodes true d = (refl, (λ e. refl, λ e. refl), (λ e. ground arith, λ e. absurd (e refl)))
verdict-AreCodes false true =
    (refl, (λ e. ground arith, λ e. ground arith), (λ e. ground arith, λ e. refl))
verdict-AreCodes false false =
    (refl, (λ e. ground arith, λ e. ground arith), (λ e. ground arith, λ e. refl))

pub overall_status-AreCodes : (results : StringMap Result) → AreCodes (overall_status results)
overall_status-AreCodes results =
    subst AreCodes (sym (overall_status-verdict results))
      (verdict-AreCodes (unhealthy_in results) (degraded_in results))

code_of_found : (s : Status) → code_of s ≢ 404
code_of_found status_healthy e = ground arith
code_of_found status_degraded e = ground arith
code_of_found status_unhealthy e = ground arith
code_of_found unknown_status e = ground arith

module _ {W : Type 0} (h : Host W) (f : Formats) (a : Aggregator W) (ctx : Option Instant) where
  -- The results that the readiness probe sees.
  abbrev pub probed : W → StringMap Result
  probed w = (check_all h (within h f a 5 ctx w) a w).0

  -- The readiness probe answers 503 exactly when some check is unhealthy, and 200 otherwise.
  pub readiness_handler_iff :
      (w : W)
      → ((status_code (readiness_handler h f a ctx w).0 ≡ 503) ↔ Has status_unhealthy (probed w))
        × ((status_code (readiness_handler h f a ctx w).0 ≡ 200)
            ↔ (¬ Has status_unhealthy (probed w)))
  unfolding readiness_handler status_code
  readiness_handler_iff w =
      let (is, at_503, at_200) = overall_status-AreCodes (probed w) in
      let (u, _, _) = overall_status_iff (probed w) in
      (
        (λ e. u.0 (at_503.0 (sym is ∙ e)), λ has. is ∙ at_503.1 (u.1 has)),
        (
          λ e. λ has. at_200.0 (sym is ∙ e) (u.1 has),
          λ none_has. is ∙ at_200.1 (λ e. none_has (u.0 e)),
        ),
      )

  -- The single check answers 404 exactly when no checker has the name.
  pub single_check_handler_iff :
      (name : Text) (w : W)
      → (status_code (single_check_handler h f a name ctx w).0 ≡ 404)
        ↔ (lookup name a.checkers ≡ none)
  unfolding single_check_handler check run_check status_code
  single_check_handler_iff name w = elim (Option-cases (lookup name a.checkers)) [
    | inl unknown ↦ (λ e. unknown, λ e. ground (arith, unknown))
    | inr (c, known) ↦ (
      λ e. absurd (
          code_of_found (run_check h (within h f a 5 ctx w) c w).0.status
            (ground (arith, known, e))),
      λ e. absurd (ground (arith, known, e)),
    )
  ]
