-- ===== src/Health/Http/Reports.antt =====
-- The report of the detailed handler: what it says of each check, and of all.
use toolops.Base.{
  ◌⊎◌, inl, inr, ◌≡◌, refl, sym, ap, ◌∙◌, ◌↔◌, Option, none, some, is_some, [], ◌∷◌, ℕ, arith, List,
}
use toolops.Base.Time.{Instant}
use toolops.Base.Text.{Text, bytes, ◌=ᵗ◌, =ᵗ_iff}
use toolops.Base.StringMap.{StringMap, lookup, insert, lookup-insert}
use toolops.Base.StringMap.Unique.{Unique, Memᴰ-lookup, lookup-Memᴰ}
use toolops.Health.Checker.{
  Status, status_healthy, status_degraded, status_unhealthy, unknown_status, to_string, Result,
}
use toolops.Health.Aggregator.{Aggregator, Host, overall_status, check_all}
use toolops.Health.Aggregator.Overall.{Has, overall_status_iff}
use toolops.Health.Aggregator.Results.{check_all-names, check_all-Unique}
use toolops.Health.Http.{
  Formats, Call, CheckResponse, HealthResponse, health_response, response_of, add_checks, report,
  code_of, json_calls, detailed_handler, within,
}
use toolops.Health.Http.Codes.{overall_status-AreCodes}

to_string-unhealthy : (s : Status) → to_string s ≡ bytes "unhealthy" → s ≡ status_unhealthy
unfolding to_string ◌=ᵗ◌
to_string-unhealthy status_healthy e = absurd (ground (arith, ap (λ t. t =ᵗ bytes "unhealthy") e))
to_string-unhealthy status_degraded e = absurd (ground (arith, ap (λ t. t =ᵗ bytes "unhealthy") e))
to_string-unhealthy status_unhealthy e = refl
to_string-unhealthy unknown_status e = absurd (ground (arith, ap (λ t. t =ᵗ bytes "unhealthy") e))

abbrev pub response_found : Formats → Option Result → Option CheckResponse
response_found f none = none
response_found f (some r) = some (response_of f r)

abbrev or_else : Option CheckResponse → Option CheckResponse → Option CheckResponse
or_else none r = r
or_else (some c) r = some c

lookup-add_checks :
    (f : Formats) (n : Text) (results : StringMap Result) (checks : StringMap CheckResponse)
    → Unique results
    → lookup n (add_checks f results checks)
      ≡ or_else (response_found f (lookup n results)) (lookup n checks)
unfolding add_checks lookup
lookup-add_checks f n [] checks unique = refl
lookup-add_checks f n ((k, r) ∷ results) checks (fresh, unique) = ground (
  arith,
  =ᵗ_iff k n,
  fresh,
  lookup-add_checks f n results (insert k (response_of f r) checks) unique,
  lookup-insert k n (response_of f r) checks,
)

lookup-report :
    (f : Formats) (at : Instant) (n : Text) (results : StringMap Result)
    → Unique results
    → lookup n (report f at results).checks ≡ response_found f (lookup n results)
unfolding report lookup
lookup-report f at n results unique = ground (arith, lookup-add_checks f n results [] unique)

-- A check of the report with the status text.
pub record Says (text : Text) (checks : StringMap CheckResponse) : Type 0 where
  pub name : Text
  pub response : CheckResponse
  pub found : lookup name checks ≡ some response
  pub status : response.status ≡ text

found_before :
    (f : Formats) (found : Option Result) (response : CheckResponse)
    → response_found f found ≡ some response
    → (r : Result) × (found ≡ some r) × ((response_of f r) ≡ response)
found_before f none response e = absurd (ground (arith, e))
found_before f (some r) response e = (r, refl, ground (arith, e))

report-Says :
    (f : Formats) (at : Instant) (results : StringMap Result)
    → Unique results
    → Says (bytes "unhealthy") (report f at results).checks ↔ Has status_unhealthy results
unfolding response_of to_string
report-Says f at results unique = (
  λ says.
      let (r, found, same) =
        found_before f (lookup says.name results) says.response
          (sym (lookup-report f at says.name results unique) ∙ says.found) in
      record {
        entry = (says.name, r);
        listed = lookup-Memᴰ says.name r results found;
        status =
            to_string-unhealthy r.status (ap (λ (c : CheckResponse). c.status) same ∙ says.status);
      },
  λ has. record {
    name = has.entry.0;
    response = response_of f has.entry.1;
    found =
        lookup-report f at has.entry.0 results unique
        ∙ ap (response_found f) (Memᴰ-lookup results unique has.listed);
    status = ap to_string has.status;
  },
)

-- An answer in JSON about the checkers of an aggregator.
pub record IsReport {W : Type 0} (f : Formats) (a : Aggregator W) (calls : List Call) : Type 0 where
  pub response : HealthResponse
  pub code : ℕ
  pub sent : calls ≡ json_calls f code (health_response response)
  pub names : (n : Text) → is_some (lookup n response.checks) ≡ is_some (lookup n a.checkers)
  pub code_range : (code ≡ 200) ⊎ (code ≡ 503)
  pub code_503 : (code ≡ 503) ↔ Says (bytes "unhealthy") response.checks
  pub summary : (code ≡ 503) ↔ (response.status ≡ bytes "unhealthy")

is_some-response_found :
    (f : Formats) (found : Option Result) → is_some (response_found f found) ≡ is_some found
is_some-response_found f none = refl
is_some-response_found f (some r) = refl

code_of_range : (s : Status) → (code_of s ≡ 200) ⊎ (code_of s ≡ 503)
code_of_range status_healthy = inl refl
code_of_range status_degraded = inl refl
code_of_range status_unhealthy = inr refl
code_of_range unknown_status = inr refl

module _ {W : Type 0} (h : Host W) (f : Formats) (a : Aggregator W) where
  -- The detailed handler reports on exactly the registered checkers, and answers 503 exactly when one of
  -- the reported checks says "unhealthy", which is when the status of the whole report says so; else 200.
  pub detailed_handler-IsReport :
      (ctx : Option Instant) (w : W) → IsReport f a (detailed_handler h f a ctx w).0
  unfolding detailed_handler report to_string
  detailed_handler-IsReport ctx w =
      let run : StringMap Result × W = check_all h (within h f a 10 ctx w) a w in
      let unique : Unique run.0 = check_all-Unique h (within h f a 10 ctx w) a w in
      let at = h.now run.1 in
      let (_, at_503, _) = overall_status-AreCodes run.0 in
      let (u, _, _) = overall_status_iff run.0 in
      let says = report-Says f at run.0 unique in
      record {
        response = report f at run.0;
        code = code_of (overall_status run.0);
        sent = refl;
        names = λ n.
            ap is_some (lookup-report f at n run.0 unique)
            ∙ is_some-response_found f (lookup n run.0)
            ∙ check_all-names h (within h f a 10 ctx w) a w n;
        code_range = code_of_range (overall_status run.0);
        code_503 = (λ e. says.1 (u.0 (at_503.0 e)), λ s. at_503.1 (u.1 (says.0 s)));
        summary = (
          λ e. ap to_string (at_503.0 e),
          λ e. at_503.1 (to_string-unhealthy (overall_status run.0) e),
        );
      }
