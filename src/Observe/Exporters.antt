-- ===== src/Observe/Exporters.antt =====
-- observe/exporters/factory.go: exporters by name. What OpenTelemetry's packages make, `X`, and the
-- environment are parameters.
pub mod Names
use toolops.Base.{Bool, true, false, List, [], if◌then◌else◌, ◌⊎◌, inl, inr, ◌||◌}
use toolops.Base.Text.{Text, bytes, ◌=ᵗ◌}

pub data Writer : Type 0 where
  stdout discard : Writer

pub data ExporterErr : Type 0 where
  err_endpoint_not_configured : ExporterErr
  err_invalid_exporter : Text → ExporterErr
  -- The error of a package of OpenTelemetry.
  failed : Text → ExporterErr

-- The constructors of OpenTelemetry, and os.Getenv.
pub record Otel (X : Type 0) : Type 0 where
  pub getenv : Text → Text
  pub stdouttrace : Writer → Text ⊎ X
  pub otlptracegrpc : Text ⊎ X
  pub stdoutmetric : Writer → Text ⊎ X
  pub otlpmetricgrpc : Text ⊎ X
  pub prometheus : Text ⊎ X

-- A reader for metrics: periodic over an exporter, or an exporter that is one.
pub data Reader (X : Type 0) : Type 0 where
  periodic : X → Reader X
  own_reader : X → Reader X

module _ {X : Type 0} where
  abbrev pub created : Text ⊎ X → ExporterErr ⊎ X
  created (inl err) = inl (failed err)
  created (inr x) = inr x

  abbrev pub periodic_of : Text ⊎ X → ExporterErr ⊎ Reader X
  periodic_of (inl err) = inl (failed err)
  periodic_of (inr x) = inr (periodic x)

  abbrev pub reader_of : Text ⊎ X → ExporterErr ⊎ Reader X
  reader_of (inl err) = inl (failed err)
  reader_of (inr x) = inr (own_reader x)

  module _ (o : Otel X) where
    -- An endpoint is given by either of two variables.
    abbrev pub has_endpoint : Text → Bool
    has_endpoint second =
        let endpoint = o.getenv (bytes "OTEL_EXPORTER_OTLP_ENDPOINT") in
        let chosen = if endpoint =ᵗ [] then o.getenv second else endpoint in
        if chosen =ᵗ [] then false else true

    unfoldable pub new_tracing_exporter : Text → ExporterErr ⊎ X
    new_tracing_exporter name =
        if name =ᵗ bytes "stdout"
        then created (o.stdouttrace stdout)
        else if name =ᵗ bytes "otlp"
        then if has_endpoint (bytes "OTEL_EXPORTER_OTLP_TRACES_ENDPOINT")
          then created o.otlptracegrpc
          else inl err_endpoint_not_configured
        else if name =ᵗ bytes "jaeger"
        then if o.getenv (bytes "OTEL_EXPORTER_JAEGER_ENDPOINT") =ᵗ []
          then inl err_endpoint_not_configured
          else created o.otlptracegrpc
        else if name =ᵗ bytes "none" || name =ᵗ []
        then created (o.stdouttrace discard)
        else inl (err_invalid_exporter name)

    unfoldable pub new_metrics_reader : Text → ExporterErr ⊎ Reader X
    new_metrics_reader name =
        if name =ᵗ bytes "stdout"
        then periodic_of (o.stdoutmetric stdout)
        else if name =ᵗ bytes "otlp"
        then if has_endpoint (bytes "OTEL_EXPORTER_OTLP_METRICS_ENDPOINT")
          then periodic_of o.otlpmetricgrpc
          else inl err_endpoint_not_configured
        else if name =ᵗ bytes "prometheus"
        then reader_of o.prometheus
        else if name =ᵗ bytes "none" || name =ᵗ []
        then periodic_of (o.stdoutmetric discard)
        else inl (err_invalid_exporter name)
