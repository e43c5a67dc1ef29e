-- ===== src/Health/Http.antt =====
-- health/http.go: the handlers of the probes. A handler is the list of its calls on the ResponseWriter,
-- with what the checks make of the world. encoding/json, the formats of package time and http.ServeMux
-- are parameters.
pub mod Codes
pub mod Reports
use toolops.Base.{ℕ, ◌*◌, ◌⊎◌, inl, inr, Option, none, some, List, [], ◌∷◌}
use toolops.Base.Time.{Instant, Duration, add, second}
use toolops.Base.Int.{pos}
use toolops.Base.Text.{Text, bytes}
use toolops.Base.StringMap.{StringMap, insert}
use toolops.Health.Checker.{
  Err, error_text, Status, status_healthy, status_degraded, status_unhealthy, unknown_status,
  to_string, Detail, Result,
}
use toolops.Health.Aggregator.{Aggregator, Host, overall_status, check, check_all, with_timeout}

-- An empty field is left out of the JSON (`omitempty`).
pub record CheckResponse : Type 0 where
  pub status : Text
  pub message : Text
  pub duration : Text
  pub details : StringMap Detail
  pub error : Text

pub record HealthResponse : Type 0 where
  pub status : Text
  pub timestamp : Text
  pub checks : StringMap CheckResponse

-- The values that the handlers encode.
pub data Payload : Type 0 where
  health_response : HealthResponse → Payload
  check_response : CheckResponse → Payload
  strings : StringMap Text → Payload

-- `Duration.String`, `Time.UTC().Format(time.RFC3339)`, the text of an error from outside of the package,
-- and what json.Encoder writes of a value, unless it has an error, which the handlers drop.
pub record Formats : Type 0 where
  pub duration_text : Duration → Text
  pub rfc3339 : Instant → Text
  pub other_text : ℕ → Text
  pub encode : Payload → Option Text

-- A call on the ResponseWriter.
pub data Call : Type 0 where
  set_header : Text → Text → Call
  write_header : ℕ → Call
  write : Text → Call

-- A handler, of the deadline of the request's context.
abbrev pub Handler : Type 0 → Type 0
Handler W = Option Instant → W → List Call × W

abbrev pub content_type : Text → Call
content_type = set_header (bytes "Content-Type")

-- LivenessHandler
unfoldable pub liveness_handler : {W : Type 0} → Handler W
liveness_handler ctx w =
    (content_type (bytes "text/plain") ∷ write_header 200 ∷ write (bytes "OK") ∷ [], w)

abbrev pub code_of : Status → ℕ
code_of status_healthy = 200
code_of status_degraded = 200
code_of _ = 503

abbrev pub plain_calls : Status → List Call
plain_calls status_healthy = write_header 200 ∷ write (bytes "OK") ∷ []
plain_calls status_degraded = write_header 200 ∷ write (bytes "DEGRADED") ∷ []
plain_calls _ = write_header 503 ∷ write (bytes "UNHEALTHY") ∷ []

abbrev encoded : Option Text → List Call
encoded none = []
encoded (some text) = write text ∷ []

-- The calls of an answer in JSON.
abbrev pub json_calls : Formats → ℕ → Payload → List Call
json_calls f code payload =
    content_type (bytes "application/json") ∷ write_header code ∷ encoded (f.encode payload)

abbrev error_field : Formats → Option Err → Text
error_field f none = []
error_field f (some err) = error_text f.other_text err

unfoldable pub response_of : Formats → Result → CheckResponse
response_of f r = record {
  status = to_string r.status;
  message = r.message;
  duration = f.duration_text r.duration;
  details = r.details;
  error = error_field f r.error;
}

-- The loop over the results.
pub add_checks : Formats → StringMap Result → StringMap CheckResponse → StringMap CheckResponse
add_checks f [] checks = checks
add_checks f ((name, r) ∷ results) checks =
    add_checks f results (insert name (response_of f r) checks)

unfoldable pub report : Formats → Instant → StringMap Result → HealthResponse
unfolding add_checks
report f at results = record {
  status = to_string (overall_status results);
  timestamp = f.rfc3339 at;
  checks = add_checks f results [];
}

module _ {W : Type 0} (h : Host W) (f : Formats) (a : Aggregator W) where
  -- `context.WithTimeout` of some seconds.
  abbrev pub within : ℕ → Option Instant → W → Option Instant
  within seconds ctx w = with_timeout ctx (add (h.now w) (pos (seconds * second)))

  unfoldable pub readiness_handler : Handler W
  readiness_handler ctx w =
      let (results, w') = check_all h (within 5 ctx w) a w in
      (content_type (bytes "text/plain") ∷ plain_calls (overall_status results), w')

  unfoldable pub detailed_handler : Handler W
  detailed_handler ctx w =
      let (results, w') = check_all h (within 10 ctx w) a w in
      (
        json_calls f (code_of (overall_status results))
            (health_response (report f (h.now w') results)),
        w',
      )

  abbrev pub checked : Err ⊎ Result → List Call
  checked (inl err) = json_calls f 404 (strings ((bytes "error", error_text f.other_text err) ∷ []))
  checked (inr r) = json_calls f (code_of r.status) (check_response (response_of f r))

  unfoldable pub single_check_handler : Text → Handler W
  single_check_handler name ctx w =
      let (found, w') = check h (within 5 ctx w) name a w in (checked found, w')

  -- RegisterHandlers, over HandleFunc of the mux.
  unfoldable pub register_handlers : {M : Type 0} → (Text → Handler W → M → M) → M → M
  register_handlers handle_func mux = handle_func (bytes "/health") detailed_handler (
      handle_func (bytes "/readyz") readiness_handler
        (handle_func (bytes "/healthz") liveness_handler mux))
