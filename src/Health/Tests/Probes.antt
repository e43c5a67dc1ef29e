-- ===== src/Health/Tests/Probes.antt =====
-- The probes at concrete inputs.
use toolops.Base.{◌≡◌, refl, none, some, [], ◌∷◌}
use toolops.Base.Text.{bytes, ◌=ᵗ◌}
use toolops.Health.Aggregator.{overall_status, check_all, run_check, check}
use toolops.Base.StringMap.{insert, lookup}
use toolops.Health.Http.{
  Formats, write_header, write, content_type, readiness_handler, detailed_handler,
  single_check_handler,
}
use toolops.Health.Http.Reports.{IsReport, detailed_handler-IsReport}
use toolops.Health.Tests.{impatient, site}

-- Formats of which nothing but a fixed text is seen.
abbrev plain : Formats
plain = record {
  duration_text = λ d. bytes "1s";
  rfc3339 = λ at. bytes "2026-01-01T00:00:00Z";
  other_text = λ n. bytes "other";
  encode = λ payload. some (bytes "{}");
}

ready :
    (readiness_handler impatient plain site none 7).0
    ≡ content_type (bytes "text/plain") ∷ write_header 503 ∷ write (bytes "UNHEALTHY") ∷ []
unfolding readiness_handler overall_status check_all insert ◌=ᵗ◌ run_check
ready = refl

unknown_check :
    (single_check_handler impatient plain site (bytes "c") none 7).0
    ≡ content_type (bytes "application/json") ∷ write_header 404 ∷ write (bytes "{}") ∷ []
unfolding single_check_handler check lookup ◌=ᵗ◌
unknown_check = refl

detailed_handler-IsReport_example :
    IsReport plain site (detailed_handler impatient plain site none 7).0
detailed_handler-IsReport_example = detailed_handler-IsReport impatient plain site none 7
