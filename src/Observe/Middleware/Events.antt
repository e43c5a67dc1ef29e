-- ===== src/Observe/Middleware/Events.antt =====
-- OpenTelemetry and the log as a list of events, and the events that a wrapped execution should leave.
use toolops.Base.{ℕ, true, false, Option, none, some, List, [], ◌∷◌, ◌++◌, ltb, if◌then◌else◌, inr}
use toolops.Base.Int.{ℤ}
use toolops.Base.Time.{Duration}
use toolops.Base.Text.{Text, bytes}
use toolops.Base.StringMap.{StringMap}
use toolops.Observe.Meta.{Value, boolean, Attribute, ToolMeta, span_name}
use toolops.Observe.Span.{Code, code_error, code_ok, OtelTracer, new_tracer}
use toolops.Observe.Metrics.{Meter, MetricsImpl, milliseconds, metric_attributes, as_metrics}
use toolops.Observe.Logger.{
  LogLevel, level_info, level_error, rank, Field, StructuredLogger, structured, Host, with_tool,
  entry_of,
}
use toolops.Observe.Middleware.{Middleware, duration_field, error_field}

pub data Event : Type 0 where
  span_started : Text → List Attribute → Event
  status_set : Text → Code → Text → Event
  attributes_set : Text → List Attribute → Event
  error_recorded : Text → Text → Event
  span_ended : Text → Event
  counted : Text → ℕ → List Attribute → Event
  measured : Text → ℤ → List Attribute → Event
  wrote : Text → Event

-- The events so far, and the rest of the world.
abbrev pub Recorded : Type 0 → Type 0
Recorded A = List Event × A

module _ {A : Type 0} where
  abbrev pub note : Event → Recorded A → Recorded A
  note e (es, a) = (es ++ e ∷ [], a)

  -- A span and an instrument are their names.
  abbrev pub recording_tracer : OtelTracer Text (Recorded A)
  recording_tracer = record {
    start = λ name attrs w. (name, note (span_started name attrs) w);
    set_status = λ span code err w. note (status_set span code err) w;
    set_attributes = λ span attrs w. note (attributes_set span attrs) w;
    record_error = λ span err w. note (error_recorded span err) w;
    finish = λ span w. note (span_ended span) w;
  }

  abbrev pub recording_meter : Meter Text Text (Recorded A)
  recording_meter = record {
    int64_counter = λ name. inr name;
    float64_histogram = λ name. inr name;
    add = λ name n attrs w. note (counted name n attrs) w;
    record_value = λ name v attrs w. note (measured name v attrs) w;
  }

  abbrev pub recording_host : (A → Text) → (StringMap Value → Option Text) → Host (Recorded A)
  recording_host timestamp marshal = record {
    timestamp = λ w. timestamp (w.1);
    marshal = marshal;
    write = λ line w. (false, note (wrote line) w);
  }

abbrev pub instruments : MetricsImpl Text Text
instruments = record {
  total_count = bytes "tool.exec.total";
  error_count = bytes "tool.exec.errors";
  duration_hist = bytes "tool.exec.duration_ms";
}

abbrev pub recording_middleware : {A : Type 0} → StructuredLogger → Middleware Text (Recorded A)
recording_middleware l = record {
  tracer = new_tracer recording_tracer;
  metrics = as_metrics recording_meter instruments;
  logger = structured l;
}

-- The events of a line that is logged.
abbrev pub line_events : Option Text → List Event
line_events none = []
line_events (some line) = wrote line ∷ wrote (10 ∷ []) ∷ []

abbrev pub log_events :
    (StringMap Value → Option Text)
    → Text
    → StructuredLogger
    → LogLevel
    → Text
    → List Field
    → List Event
log_events marshal timestamp l level msg fields =
    if ltb (rank level) (rank l.level)
    then []
    else line_events (marshal (entry_of l timestamp level msg fields))

-- The events of a span's end and of the instruments, after an execution of the given duration.
abbrev pub telemetry_events : ToolMeta → Duration → Option Text → List Event
telemetry_events tool d none =
    status_set (span_name tool) code_ok []
    ∷ span_ended (span_name tool)
    ∷ counted (bytes "tool.exec.total") 1 (metric_attributes tool)
    ∷ measured (bytes "tool.exec.duration_ms") (milliseconds d) (metric_attributes tool)
    ∷ []
telemetry_events tool d (some err) =
    status_set (span_name tool) code_error err
    ∷ attributes_set (span_name tool) ((bytes "tool.error", boolean true) ∷ [])
    ∷ error_recorded (span_name tool) err
    ∷ span_ended (span_name tool)
    ∷ counted (bytes "tool.exec.total") 1 (metric_attributes tool)
    ∷ counted (bytes "tool.exec.errors") 1 (metric_attributes tool)
    ∷ measured (bytes "tool.exec.duration_ms") (milliseconds d) (metric_attributes tool)
    ∷ []

abbrev pub outcome_events :
    (StringMap Value → Option Text)
    → Text
    → StructuredLogger
    → ToolMeta
    → Duration
    → Option Text
    → List Event
outcome_events marshal timestamp l tool d none =
    log_events marshal timestamp (with_tool tool l) level_info (bytes "tool execution completed")
      (duration_field d ∷ [])
outcome_events marshal timestamp l tool d (some err) =
    log_events marshal timestamp (with_tool tool l) level_error (bytes "tool execution failed")
      (duration_field d ∷ error_field err ∷ [])

abbrev pub closing_events :
    (StringMap Value → Option Text)
    → Text
    → StructuredLogger
    → ToolMeta
    → Duration
    → Option Text
    → List Event
closing_events marshal timestamp l tool d err =
    telemetry_events tool d err ++ outcome_events marshal timestamp l tool d err
