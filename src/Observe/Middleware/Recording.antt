-- ===== src/Observe/Middleware/Recording.antt =====
-- What one wrapped execution leaves in OpenTelemetry and in the log, when they are kept as a list of
-- events.
use toolops.Base.{
  ++-nil, ++-assoc, ◌≡◌, ap, sym, ◌∙◌, Bool, true, false, Option, none, some, List, [], ◌∷◌, ◌++◌,
  ltb, if◌then◌else◌,
}
use toolops.Base.Time.{Instant, since}
use toolops.Base.Text.{Text, bytes}
use toolops.Base.StringMap.{StringMap}
use toolops.Observe.Meta.{Value, ToolMeta, span_name}
use toolops.Observe.Span.{span_attributes, start_span, end_span, new_tracer}
use toolops.Observe.Metrics.{record_execution, as_metrics}
use toolops.Observe.Logger.{
  write_line, LogLevel, level_info, level_error, rank, Field, StructuredLogger, with_tool,
  logger_with_tool, log, log_at, entry_of,
}
use toolops.Observe.Middleware.{settle, ExecuteFunc, wrap, duration_field, error_field}
use toolops.Observe.Middleware.Events.{
  Event, span_started, wrote, Recorded, recording_host, recording_middleware, line_events,
  log_events, telemetry_events, outcome_events, closing_events,
}

-- Events that are noted one after the other.
abbrev append_each : List Event → List Event → List Event
append_each es [] = es
append_each es (e ∷ later) = append_each (es ++ e ∷ []) later

append_each_lem : (es later : List Event) → append_each es later ≡ es ++ later
append_each_lem es [] = sym (++-nil es)
append_each_lem es (e ∷ later) = append_each_lem (es ++ e ∷ []) later ∙ ++-assoc es (e ∷ []) later

regroup : (es ended logged : List Event) → append_each es ended ++ logged ≡ es ++ (ended ++ logged)
regroup es ended logged =
    ap (λ es'. es' ++ logged) (append_each_lem es ended) ∙ ++-assoc es ended logged

module _ {A : Type 0} (timestamp : A → Text) (marshal : StringMap Value → Option Text) where
  write_records :
      (below : Bool) (line : Option Text) (es : List Event) (a : A)
      → (if below then (es, a) else write_line (recording_host timestamp marshal) line (es, a))
        ≡ (es ++ (if below then [] else line_events line), a)
  write_records true line es a = ap (λ es'. (es', a)) (sym (++-nil es))
  write_records false none es a = ap (λ es'. (es', a)) (sym (++-nil es))
  write_records false (some line) es a =
      ap (λ es'. (es', a)) (++-assoc es (wrote line ∷ []) (wrote (10 ∷ []) ∷ []))

  log_records :
      (l : StructuredLogger) (level : LogLevel) (msg : Text) (fields : List Field) (es : List Event)
      (a : A)
      → log (recording_host timestamp marshal) l level msg fields (es, a)
        ≡ (es ++ log_events marshal (timestamp a) l level msg fields, a)
  unfolding log
  log_records l level msg fields es a =
      write_records (ltb (rank level) (rank l.level))
        (marshal (entry_of l (timestamp a) level msg fields)) es a

module _ {A : Type 0} (timestamp : A → Text) (marshal : StringMap Value → Option Text)
    (now : A → Instant) (l : StructuredLogger) where
  -- The wrapped execution, on the recorded events.
  abbrev pub recorded : {I R : Type 0} → ExecuteFunc I R (Recorded A) → ExecuteFunc I R (Recorded A)
  recorded fn tool input w =
      wrap (recording_host timestamp marshal) (λ (w : Recorded A). now (w.1))
        (recording_middleware l) fn tool input w

  -- What the middleware adds after the execution.
  abbrev pub closed :
      {R : Type 0}
      → ToolMeta
      → Instant
      → (R × Option Text) × Recorded A
      → (R × Option Text) × Recorded A
  closed tool start ((r, err), (es, a)) =
      ((r, err), (es ++ closing_events marshal (timestamp a) l tool (since (now a) start) err, a))

  settle_records :
      {R : Type 0} (tool : ToolMeta) (start : Instant) (r : R) (err : Option Text) (es : List Event)
      (a : A)
      → settle
          (recording_host timestamp marshal)
          (λ (w : Recorded A). now (w.1))
          (recording_middleware l)
          tool
          (span_name tool)
          start
          ((r, err), (es, a))
        ≡ (
          (r, err),
          (es ++ closing_events marshal (timestamp a) l tool (since (now a) start) err, a),
        )
  unfolding new_tracer end_span as_metrics record_execution log_at logger_with_tool
  settle_records tool start r none es a =
      let ended = telemetry_events tool (since (now a) start) none in
      ap (λ w. ((r, none), w))
        (log_records timestamp marshal (with_tool tool l) level_info
            (bytes "tool execution completed") (duration_field (since (now a) start) ∷ [])
            (append_each es ended) a
          ∙ ap (λ es'. (es', a))
              (regroup es ended
                (outcome_events marshal (timestamp a) l tool (since (now a) start) none)))
  settle_records tool start r (some err) es a =
      let ended = telemetry_events tool (since (now a) start) (some err) in
      ap (λ w. ((r, some err), w))
        (log_records timestamp marshal (with_tool tool l) level_error
            (bytes "tool execution failed")
            (duration_field (since (now a) start) ∷ error_field err ∷ []) (append_each es ended) a
          ∙ ap (λ es'. (es', a))
              (regroup es ended
                (outcome_events marshal (timestamp a) l tool (since (now a) start) (some err))))

  -- The middleware hands on what the tool returns. It starts one span before the execution; after it, the
  -- span gets its status (with the error, if there is one) and ends once, the total is counted once, the
  -- errors once exactly if the tool failed, the duration is measured once, and one line is logged: at level
  -- error if the tool failed, and else at level info, if the logger's level lets it pass. Nothing else is
  -- recorded, and what the execution itself recorded stays.
  pub wrap_records :
      {I R : Type 0} (fn : ExecuteFunc I R (Recorded A)) (tool : ToolMeta) (input : I)
      (es : List Event) (a : A)
      → recorded fn tool input (es, a) ≡ (
          let opened : Recorded A =
            (es ++ span_started (span_name tool) (span_attributes tool) ∷ [], a) in
          closed tool (now a) (fn tool input opened))
  unfolding wrap new_tracer start_span
  wrap_records fn tool input es a =
      let opened : Recorded A =
        (es ++ span_started (span_name tool) (span_attributes tool) ∷ [], a) in
      let done = fn tool input opened in
      settle_records tool (now a) (done.0.0) (done.0.1) (done.1.0) (done.1.1)
