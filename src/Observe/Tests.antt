-- ===== src/Observe/Tests.antt =====
-- The theorems of package observe at concrete inputs.
use toolops.Base.{
  suc, ◌+◌, ℕ, ◌≡◌, refl, true, false, not, Option, none, some, List, [], ◌∷◌, ◌++◌, if◌then◌else◌,
  inr,
}
use toolops.Base.Int.{ℤ, pos, pos_part, neg_part, sub_ℕ, leb_ℤ, ltb_ℤ, ◌+ℤ◌, ◌*ℤ◌}
use toolops.Base.Float.{Float64}
use toolops.Base.Text.{Text, bytes, member, ◌=ᵗ◌}
use toolops.Base.StringMap.{StringMap, lookup}
use toolops.Observe.Meta.{Value, text, ToolMeta, span_name}
use toolops.Observe.Span.{span_attributes}
use toolops.Observe.Logger.{
  level_info, Field, new_logger, with_tool, redacted, is_redacted_field, entry_of,
}
use toolops.Observe.Logger.Redaction.{new, with, keys_of, lookup-entry_of}
use toolops.Observe.Middleware.{ExecuteFunc}
use toolops.Observe.Middleware.Events.{span_started, Recorded}
use toolops.Observe.Middleware.Recording.{recorded, closed, wrap_records}
use toolops.Observe.Config.{Config}
use toolops.Observe.Config.Validity.{is_valid}
use toolops.Observe.Exporters.{Otel}
use toolops.Observe.Observer.{Globals, new_observer}
use toolops.Observe.Observer.Exporting.{
  err_of, is_invalid_config, is_unknown_exporter, new_observer-validate,
}

abbrev search_tool : ToolMeta
search_tool = record {
  id = [];
  namespace = bytes "docs";
  name = bytes "search";
  version = [];
  tags = [];
  category = [];
}

abbrev a_password : List Field
a_password =
    record { key = bytes "user"; value = text (bytes "ann") }
    ∷ record { key = bytes "password"; value = text (bytes "hunter2") }
    ∷ []

lookup-entry_of_example :
    lookup (bytes "password") (
      entry_of
        (with_tool search_tool (new_logger (bytes "info")))
        (bytes "now")
        level_info
        (bytes "hello")
        a_password)
    ≡ (if member (bytes "password") (keys_of a_password) then some redacted else none)
unfolding is_redacted_field member ◌=ᵗ◌
lookup-entry_of_example =
    lookup-entry_of (bytes "now") (bytes "hello") (bytes "password") level_info a_password
      (with search_tool (new (bytes "info"))) refl

-- A tool that fails, and counts its calls in the world.
abbrev failing : ExecuteFunc ℕ ℕ (Recorded ℕ)
failing tool input (es, calls) = ((0, some (bytes "broken")), (es, suc calls))

abbrev marshal_level : StringMap Value → Option Text
marshal_level entry = some (bytes "line")

wrap_records_example :
    recorded
      (λ a. bytes "now")
      marshal_level
      (λ a. 7)
      (new_logger (bytes "warn"))
      failing
      search_tool
      5
      ([], 3)
    ≡ (let opened : Recorded ℕ =
          ([] ++ span_started (span_name search_tool) (span_attributes search_tool) ∷ [], 3) in
        closed
          (λ a. bytes "now")
          marshal_level
          (λ a. 7)
          (new_logger (bytes "warn"))
          search_tool
          7
          (failing search_tool 5 opened))
wrap_records_example =
    wrap_records (λ a. bytes "now") marshal_level (λ a. 7) (new_logger (bytes "warn")) failing
      search_tool 5 [] 3

-- Whole numbers in place of float64.
abbrev whole : Float64
whole = record {
  F = ℤ;
  of_int = λ x. x;
  to_int = λ x. x;
  seconds = λ d. d;
  add = λ x y. x +ℤ y;
  sub = λ x y. sub_ℕ (pos_part x + neg_part y) (neg_part x + pos_part y);
  mul = λ x y. x *ℤ y;
  div = λ x y. x;
  pow = λ x y. x;
  le = leb_ℤ;
  lt = ltb_ℤ;
}

abbrev otel : Otel ℕ
otel = record {
  getenv = λ key. [];
  stdouttrace = λ writer. inr 1;
  otlptracegrpc = inr 2;
  stdoutmetric = λ writer. inr 3;
  otlpmetricgrpc = inr 4;
  prometheus = inr 5;
}

abbrev globals : Globals ℤ ℕ ℕ
globals = record {
  new_resource = λ name version. none;
  set_tracer_provider = λ tp w. suc w;
  set_meter_provider = λ mp w. suc w;
}

abbrev to_jaeger : Config ℤ
to_jaeger = record {
  service_name = bytes "svc";
  version = bytes "1";
  tracing = record { enabled = true; exporter = bytes "jaeger"; sample_pct = pos 1 };
  metrics = record { enabled = true; exporter = bytes "prometheus" };
  logging = record { enabled = true; level = bytes "warn" };
}

new_observer-validate_example :
    (is_invalid_config (err_of (new_observer whole otel globals to_jaeger 0).0)
      ≡ not (is_valid whole to_jaeger))
    × (is_unknown_exporter (err_of (new_observer whole otel globals to_jaeger 0).0) ≡ false)
new_observer-validate_example = new_observer-validate whole otel globals to_jaeger 0
