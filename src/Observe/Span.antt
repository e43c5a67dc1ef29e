-- ===== src/Observe/Span.antt =====
-- observe/tracer.go: spans around a tool's execution. OpenTelemetry's tracer is a parameter; `S` is its
-- spans, an error is its message.
use toolops.Base.{true, false, Option, none, some, List, [], ◌∷◌, ◌++◌, is_empty, if◌then◌else◌}
use toolops.Base.Text.{Text, bytes}
use toolops.Observe.Meta.{text, boolean, texts, Attribute, ToolMeta, span_name, tool_id, if_given}

pub data Code : Type 0 where
  code_error code_ok : Code

-- trace.Tracer and trace.Span.
pub record OtelTracer (S W : Type 0) : Type 0 where
  pub start : Text → List Attribute → W → S × W
  pub set_status : S → Code → Text → W → W
  pub set_attributes : S → List Attribute → W → W
  pub record_error : S → Text → W → W
  pub finish : S → W → W

-- The interface Tracer.
pub record Tracer (S W : Type 0) : Type 0 where
  pub start_span : ToolMeta → W → S × W
  pub end_span : S → Option Text → W → W

abbrev tags_of : List Text → List Attribute
tags_of tags = if is_empty tags then [] else (bytes "tool.tags", texts tags) ∷ []

unfoldable pub span_attributes : ToolMeta → List Attribute
unfolding tool_id
span_attributes meta =
    ((bytes "tool.id", text (tool_id meta))
      ∷ (bytes "tool.name", text meta.name)
      ∷ (bytes "tool.error", boolean false)
      ∷ [])
    ++ if_given (bytes "tool.namespace") meta.namespace
    ++ if_given (bytes "tool.version") meta.version
    ++ if_given (bytes "tool.category") meta.category
    ++ tags_of meta.tags

module _ {S W : Type 0} (t : OtelTracer S W) where
  unfoldable pub start_span : ToolMeta → W → S × W
  unfolding span_name span_attributes
  start_span meta w = t.start (span_name meta) (span_attributes meta) w

  abbrev pub set_outcome : S → Option Text → W → W
  set_outcome span none w = t.set_status span code_ok [] w
  set_outcome span (some err) w =
      let w1 = t.set_status span code_error err w in
      let w2 = t.set_attributes span ((bytes "tool.error", boolean true) ∷ []) w1 in
      t.record_error span err w2

  unfoldable pub end_span : S → Option Text → W → W
  end_span span err w = t.finish span (set_outcome span err w)

  unfoldable pub new_tracer : Tracer S W
  new_tracer = record { start_span = start_span; end_span = end_span }

  -- noopTracer, on OpenTelemetry's no-op tracer.
  unfoldable pub new_noop_tracer : Tracer S W
  unfolding span_name
  new_noop_tracer = record {
    start_span = λ meta w. t.start (span_name meta) [] w;
    end_span = λ span err w. t.finish span w;
  }
