-- ===== src/Observe/Metrics.antt =====
-- observe/metrics.go: the counters and the histogram. OpenTelemetry's meter is a parameter; `I` and `H` are
-- its counters and histograms.
use toolops.Base.{ℕ, ◌/◌, ◌+◌, Option, none, some, List, [], ◌∷◌, ◌++◌, ◌⊎◌, inl, inr}
use toolops.Base.Int.{ℤ, pos, negsuc, sub_ℕ}
use toolops.Base.Time.{Duration, millisecond}
use toolops.Base.Text.{Text, bytes}
use toolops.Observe.Meta.{text, Attribute, ToolMeta, tool_id, if_given}

-- metric.Meter with its instruments; creating one fails with an error's text.
pub record Meter (I H W : Type 0) : Type 0 where
  pub int64_counter : Text → Text ⊎ I
  pub float64_histogram : Text → Text ⊎ H
  pub add : I → ℕ → List Attribute → W → W
  pub record_value : H → ℤ → List Attribute → W → W

-- The interface Metrics.
pub record Metrics (W : Type 0) : Type 0 where
  pub record_execution : ToolMeta → Duration → Option Text → W → W

pub record MetricsImpl (I H : Type 0) : Type 0 where
  pub total_count : I
  pub error_count : I
  pub duration_hist : H

-- `d.Milliseconds()`, which rounds to zero.
abbrev pub milliseconds : Duration → ℤ
milliseconds (pos n) = pos (n / millisecond)
milliseconds (negsuc n) = sub_ℕ 0 ((n + 1) / millisecond)

unfoldable pub metric_attributes : ToolMeta → List Attribute
unfolding tool_id
metric_attributes meta =
    ((bytes "tool.id", text (tool_id meta)) ∷ (bytes "tool.name", text meta.name) ∷ [])
    ++ if_given (bytes "tool.namespace") meta.namespace

-- `if err != nil { return nil, err }`
abbrev pub and_then : {A B : Type 0} → Text ⊎ A → (A → Text ⊎ B) → Text ⊎ B
and_then (inl err) f = inl err
and_then (inr a) f = f a

module _ {I H W : Type 0} (m : Meter I H W) where
  unfoldable pub new_metrics : Text ⊎ MetricsImpl I H
  new_metrics = and_then (m.int64_counter (bytes "tool.exec.total")) (λ total.
      and_then (m.int64_counter (bytes "tool.exec.errors")) (λ errors.
        and_then (m.float64_histogram (bytes "tool.exec.duration_ms")) (λ duration.
          inr (record { total_count = total; error_count = errors; duration_hist = duration }))))

  abbrev pub count_error : MetricsImpl I H → List Attribute → Option Text → W → W
  count_error impl attrs none w = w
  count_error impl attrs (some err) w = m.add impl.error_count 1 attrs w

  unfoldable pub record_execution : MetricsImpl I H → ToolMeta → Duration → Option Text → W → W
  unfolding metric_attributes
  record_execution impl meta duration err w =
      let attrs = metric_attributes meta in
      let w1 = m.add impl.total_count 1 attrs w in
      let w2 = count_error impl attrs err w1 in
      m.record_value impl.duration_hist (milliseconds duration) attrs w2

  unfoldable pub as_metrics : MetricsImpl I H → Metrics W
  as_metrics impl = record { record_execution = record_execution impl }

unfoldable pub noop_metrics : {W : Type 0} → Metrics W
noop_metrics = record { record_execution = λ meta duration err w. w }
