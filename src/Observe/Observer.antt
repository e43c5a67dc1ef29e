-- ===== src/Observe/Observer.antt =====
-- observe/observe.go: setting up and shutting down the telemetry. OpenTelemetry's exporters, `X`, and its
-- global providers, in the world `W`, are parameters.
pub mod Exporting
use toolops.Base.{
  Bool, true, false, Option, none, some, List, [], ◌∷◌, ◌++◌, if◌then◌else◌, ◌⊎◌, inl, inr,
}
use toolops.Base.Int.{pos}
use toolops.Base.Float.{Float64}
use toolops.Base.Text.{Text}
use toolops.Observe.Config.{Config, ConfigErr, validate}
use toolops.Observe.Exporters.{Otel, ExporterErr, Reader, new_tracing_exporter, new_metrics_reader}
use toolops.Observe.Logger.{Logger, structured, noop_logger, new_logger}

pub data Sampler (F : Type 0) : Type 0 where
  always_sample never_sample : Sampler F
  trace_id_ratio_based : F → Sampler F

pub record TracerProvider (F X : Type 0) : Type 0 where
  pub service : Text
  pub version : Text
  pub sampler : Sampler F
  pub exporter : X

pub record MeterProvider (X : Type 0) : Type 0 where
  pub service : Text
  pub version : Text
  pub reader : Reader X

-- Without a provider, a tracer or a meter is OpenTelemetry's no-op.
pub record Observer (F X : Type 0) : Type 0 where
  pub tracer_provider : Option (TracerProvider F X)
  pub meter_provider : Option (MeterProvider X)
  pub logger : Logger

pub data SetupErr : Type 0 where
  invalid_config : ConfigErr → SetupErr
  resource_failed : Text → SetupErr
  tracing_failed metrics_failed : ExporterErr → SetupErr

-- OpenTelemetry's resource.New, which may fail, and the setters of its global providers.
pub record Globals (F X W : Type 0) : Type 0 where
  pub new_resource : Text → Text → Option Text
  pub set_tracer_provider : TracerProvider F X → W → W
  pub set_meter_provider : MeterProvider X → W → W

unfoldable pub sampler_of : (f : Float64) → f.F → Sampler (f.F)
sampler_of f pct =
    if f.le (f.of_int (pos 1)) pct
    then always_sample
    else if f.le pct (f.of_int (pos 0))
    then never_sample
    else trace_id_ratio_based pct

abbrev pub logger_of : Bool → Text → Logger
logger_of true level = structured (new_logger level)
logger_of false level = noop_logger

module _ {X W : Type 0} (f : Float64) (o : Otel X) (g : Globals (f.F) X W)
    (cfg : Config (f.F)) where
  abbrev pub install_tracing :
      ExporterErr ⊎ X → W → (SetupErr ⊎ Option (TracerProvider (f.F) X)) × W
  install_tracing (inl err) w = (inl (tracing_failed err), w)
  install_tracing (inr exporter) w =
      let tp : TracerProvider (f.F) X = record {
        service = cfg.service_name;
        version = cfg.version;
        sampler = sampler_of f cfg.tracing.sample_pct;
        exporter = exporter;
      } in
      (inr (some tp), g.set_tracer_provider tp w)

  unfoldable pub setup_tracing : W → (SetupErr ⊎ Option (TracerProvider (f.F) X)) × W
  unfolding sampler_of new_tracing_exporter
  setup_tracing w =
      if cfg.tracing.enabled
      then install_tracing (new_tracing_exporter o cfg.tracing.exporter) w
      else (inr none, w)

  abbrev pub install_metrics :
      ExporterErr ⊎ Reader X → W → (SetupErr ⊎ Option (MeterProvider X)) × W
  install_metrics (inl err) w = (inl (metrics_failed err), w)
  install_metrics (inr reader) w =
      let mp : MeterProvider X = record {
        service = cfg.service_name;
        version = cfg.version;
        reader = reader;
      } in
      (inr (some mp), g.set_meter_provider mp w)

  unfoldable pub setup_metrics : W → (SetupErr ⊎ Option (MeterProvider X)) × W
  unfolding new_metrics_reader
  setup_metrics w =
      if cfg.metrics.enabled
      then install_metrics (new_metrics_reader o cfg.metrics.exporter) w
      else (inr none, w)

  abbrev pub with_metrics :
      Option (TracerProvider (f.F) X)
      → (SetupErr ⊎ Option (MeterProvider X)) × W
      → (SetupErr ⊎ Observer (f.F) X) × W
  with_metrics tp (inl err, w) = (inl err, w)
  with_metrics tp (inr mp, w) = (
    inr (record {
      tracer_provider = tp;
      meter_provider = mp;
      logger = logger_of cfg.logging.enabled cfg.logging.level;
    }),
    w,
  )

  abbrev pub with_tracing :
      (SetupErr ⊎ Option (TracerProvider (f.F) X)) × W → (SetupErr ⊎ Observer (f.F) X) × W
  with_tracing (inl err, w) = (inl err, w)
  with_tracing (inr tp, w) = with_metrics tp (setup_metrics w)

  abbrev pub with_resource : Option Text → W → (SetupErr ⊎ Observer (f.F) X) × W
  with_resource (some err) w = (inl (resource_failed err), w)
  with_resource none w = with_tracing (setup_tracing w)

  abbrev pub with_config : Option ConfigErr → W → (SetupErr ⊎ Observer (f.F) X) × W
  with_config (some err) w = (inl (invalid_config err), w)
  with_config none w = with_resource (g.new_resource cfg.service_name cfg.version) w

  unfoldable pub new_observer : W → (SetupErr ⊎ Observer (f.F) X) × W
  unfolding validate
  new_observer w = with_config (validate f cfg) w

-- The Shutdown of the providers, with the error's text if it fails.
pub record Closers (F X W : Type 0) : Type 0 where
  pub shutdown_tracer : TracerProvider F X → W → Option Text × W
  pub shutdown_meter : MeterProvider X → W → Option Text × W

pub data ShutdownErr : Type 0 where
  tracer_shutdown meter_shutdown : Text → ShutdownErr

abbrev pub noted :
    {W : Type 0} → (Text → ShutdownErr) → List ShutdownErr → Option Text × W → List ShutdownErr × W
noted wrap errs (none, w) = (errs, w)
noted wrap errs (some err, w) = (errs ++ wrap err ∷ [], w)

module _ {F X W : Type 0} (c : Closers F X W) where
  abbrev close_tracer : Option (TracerProvider F X) → W → List ShutdownErr × W
  close_tracer none w = ([], w)
  close_tracer (some tp) w = noted tracer_shutdown [] (c.shutdown_tracer tp w)

  abbrev close_meter : Option (MeterProvider X) → List ShutdownErr × W → List ShutdownErr × W
  close_meter none r = r
  close_meter (some mp) (errs, w) = noted meter_shutdown errs (c.shutdown_meter mp w)

  -- The errors that are joined; none is a nil error.
  unfoldable pub shutdown : Observer F X → W → List ShutdownErr × W
  shutdown obs w = close_meter obs.meter_provider (close_tracer obs.tracer_provider w)
