-- ===== src/Observe/Middleware.antt =====
-- observe/middleware.go: the telemetry around a tool's execution. `S` is the spans, `I` the inputs, `R` the
-- results; an error is its message.
pub mod Events
pub mod Recording
use toolops.Base.{inr, ◌⊎◌, Bool, Option, none, some, List, [], ◌∷◌}
use toolops.Base.Time.{Instant, Duration, since}
use toolops.Base.Text.{Text, bytes}
use toolops.Observe.Meta.{Value, text, float, ToolMeta}
use toolops.Observe.Span.{OtelTracer, new_tracer, Tracer}
use toolops.Observe.Metrics.{and_then, Meter, as_metrics, new_metrics, Metrics, milliseconds}
use toolops.Observe.Logger.{
  LogLevel, level_info, level_error, Field, Logger, logger_with_tool, Host, log_at,
}

abbrev pub ExecuteFunc : Type 0 → Type 0 → Type 0 → Type 0
ExecuteFunc I R W = ToolMeta → I → W → (R × Option Text) × W

pub record Middleware (S W : Type 0) : Type 0 where
  pub tracer : Tracer S W
  pub metrics : Metrics W
  pub logger : Logger

abbrev pub duration_field : Duration → Field
duration_field duration = record {
  key = bytes "duration_ms";
  value = float (milliseconds duration);
}

abbrev pub error_field : Text → Field
error_field err = record { key = bytes "error"; value = text err }

module _ {S W : Type 0} (h : Host W) (now : W → Instant) (m : Middleware S W) where
  abbrev log_outcome : ToolMeta → Duration → Option Text → W → W
  log_outcome tool duration none w =
      log_at h level_info (logger_with_tool tool m.logger) (bytes "tool execution completed")
        (duration_field duration ∷ []) w
  log_outcome tool duration (some err) w =
      log_at h level_error (logger_with_tool tool m.logger) (bytes "tool execution failed")
        (duration_field duration ∷ error_field err ∷ []) w

  -- What follows the execution, which began at `start`.
  abbrev pub settle :
      {R : Type 0} → ToolMeta → S → Instant → (R × Option Text) × W → (R × Option Text) × W
  settle tool span start ((result, err), w) =
      let duration = since (now w) start in
      let w1 = m.tracer.end_span span err w in
      let w2 = m.metrics.record_execution tool duration err w1 in
      ((result, err), log_outcome tool duration err w2)

  abbrev run : {I R : Type 0} → ExecuteFunc I R W → ToolMeta → I → S × W → (R × Option Text) × W
  run fn tool input (span, w) = settle tool span (now w) (fn tool input w)

  unfoldable pub wrap : {I R : Type 0} → ExecuteFunc I R W → ExecuteFunc I R W
  unfolding since logger_with_tool log_at
  wrap fn tool input w = run fn tool input (m.tracer.start_span tool w)

-- MiddlewareFromObserver, of the observer's tracer, meter and logger.
unfoldable pub middleware_from_observer :
    {S I H W : Type 0} → OtelTracer S W → Meter I H W → Logger → Text ⊎ Middleware S W
unfolding new_tracer new_metrics as_metrics
middleware_from_observer tracer meter logger = and_then (new_metrics meter) (λ impl.
    inr (record { tracer = new_tracer tracer; metrics = as_metrics meter impl; logger = logger }))
