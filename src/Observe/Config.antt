-- ===== src/Observe/Config.antt =====
-- observe/observe.go and observe/errors.go: the configuration and its validation. float64 is a parameter.
pub mod Validity
use toolops.Base.{
  ◌≡◌, refl, ◌↔◌, Bool, true, false, ◌&&◌, ◌||◌, not, Option, none, some, List, [], ◌∷◌,
  if◌then◌else◌, arith,
}
use toolops.Base.Int.{ℤ, pos}
use toolops.Base.Float.{Float64}
use toolops.Base.Text.{Text, bytes, ◌=ᵗ◌, member}

pub data ConfigErr : Type 0 where
  err_missing_service_name err_invalid_sample_pct : ConfigErr
  err_invalid_tracing_exporter err_invalid_metrics_exporter err_invalid_log_level : Text → ConfigErr

pub record TracingConfig (F : Type 0) : Type 0 where
  pub enabled : Bool
  pub exporter : Text
  pub sample_pct : F

pub record MetricsConfig : Type 0 where
  pub enabled : Bool
  pub exporter : Text

pub record LoggingConfig : Type 0 where
  pub enabled : Bool
  pub level : Text

pub record Config (F : Type 0) : Type 0 where
  pub service_name : Text
  pub version : Text
  pub tracing : TracingConfig F
  pub metrics : MetricsConfig
  pub logging : LoggingConfig

abbrev pub valid_tracing_exporters : List Text
valid_tracing_exporters = bytes "otlp" ∷ bytes "jaeger" ∷ bytes "stdout" ∷ bytes "none" ∷ [] ∷ []

abbrev pub valid_metrics_exporters : List Text
valid_metrics_exporters =
    bytes "otlp" ∷ bytes "prometheus" ∷ bytes "stdout" ∷ bytes "none" ∷ [] ∷ []

abbrev pub valid_log_levels : List Text
valid_log_levels = bytes "debug" ∷ bytes "info" ∷ bytes "warn" ∷ bytes "error" ∷ [] ∷ []

abbrev pub metrics_err : MetricsConfig → Option ConfigErr
metrics_err c =
    if c.enabled && not (member c.exporter valid_metrics_exporters)
    then some (err_invalid_metrics_exporter c.exporter)
    else none

abbrev pub logging_err : LoggingConfig → Option ConfigErr
logging_err c =
    if c.enabled && not (member c.level valid_log_levels)
    then some (err_invalid_log_level c.level)
    else none

abbrev pub or_else : Option ConfigErr → Option ConfigErr → Option ConfigErr
or_else (some err) next = some err
or_else none next = next

module _ (f : Float64) where
  abbrev pub min_sample_pct : f.F
  min_sample_pct = f.of_int (pos 0)

  abbrev pub max_sample_pct : f.F
  max_sample_pct = f.of_int (pos 1)

  abbrev pub tracing_err : TracingConfig f.F → Option ConfigErr
  tracing_err c =
      if not c.enabled
      then none
      else if not (member c.exporter valid_tracing_exporters)
      then some (err_invalid_tracing_exporter c.exporter)
      else if f.lt c.sample_pct min_sample_pct || f.lt max_sample_pct c.sample_pct
      then some err_invalid_sample_pct
      else none

  unfoldable pub validate : Config f.F → Option ConfigErr
  unfolding member
  validate c =
      if c.service_name =ᵗ []
      then some err_missing_service_name
      else or_else (tracing_err c.tracing) (or_else (metrics_err c.metrics) (logging_err c.logging))
