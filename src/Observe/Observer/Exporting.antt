-- ===== src/Observe/Observer/Exporting.antt =====
-- What a configuration that validates says about the exporters behind an observer.
use toolops.Base.{
  ◌≡◌, refl, ◌∙◌, Bool, true, false, not, Option, none, some, is_some, ◌⊎◌, inl, inr, Bool-cases,
  arith,
}
use toolops.Base.Float.{Float64}
use toolops.Base.Text.{Text}
use toolops.Observe.Config.{Config, ConfigErr, validate}
use toolops.Observe.Exporters.{
  err_endpoint_not_configured, Otel, ExporterErr, Reader, new_tracing_exporter, new_metrics_reader,
}
use toolops.Observe.Observer.{
  with_config, with_tracing, install_tracing, with_resource, with_metrics, install_metrics,
  TracerProvider, MeterProvider, SetupErr, Globals, setup_tracing, setup_metrics, new_observer,
}
use toolops.Observe.Config.Validity.{is_valid, validate-is_valid}
use toolops.Observe.Exporters.Names.{
  is_unknown, is_unknown-new_tracing_exporter, is_unknown-new_metrics_reader,
}

abbrev pub err_of : {A : Type 0} → SetupErr ⊎ A → Option SetupErr
err_of (inl err) = some err
err_of (inr a) = none

-- Whether setting up failed for an exporter's name that the factory does not know.
abbrev pub is_unknown_exporter : Option SetupErr → Bool
is_unknown_exporter (some (SetupErr.tracing_failed (ExporterErr.err_invalid_exporter name))) = true
is_unknown_exporter (some (SetupErr.metrics_failed (ExporterErr.err_invalid_exporter name))) = true
is_unknown_exporter _ = false

abbrev pub is_invalid_config : Option SetupErr → Bool
is_invalid_config (some (SetupErr.invalid_config err)) = true
is_invalid_config _ = false

-- Neither of the two.
abbrev IsQuiet : Option SetupErr → Type 0
IsQuiet err = (is_invalid_config err ≡ false) × (is_unknown_exporter err ≡ false)

module _ {X W : Type 0} (f : Float64) (o : Otel X) (g : Globals (f.F) X W)
    (cfg : Config (f.F)) where
  install_tracing-IsQuiet :
      (r : ExporterErr ⊎ X) (w : W)
      → is_unknown r ≡ false
      → IsQuiet (err_of (install_tracing f o g cfg r w).0)
  install_tracing-IsQuiet (inr x) w h = (refl, refl)
  install_tracing-IsQuiet (inl (ExporterErr.err_invalid_exporter name)) w h =
      (refl, ground (arith, h))
  install_tracing-IsQuiet (inl err_endpoint_not_configured) w h = (refl, refl)
  install_tracing-IsQuiet (inl (ExporterErr.failed err)) w h = (refl, refl)

  install_metrics-IsQuiet :
      (r : ExporterErr ⊎ Reader X) (w : W)
      → is_unknown r ≡ false
      → IsQuiet (err_of (install_metrics f o g cfg r w).0)
  install_metrics-IsQuiet (inr x) w h = (refl, refl)
  install_metrics-IsQuiet (inl (ExporterErr.err_invalid_exporter name)) w h =
      (refl, ground (arith, h))
  install_metrics-IsQuiet (inl err_endpoint_not_configured) w h = (refl, refl)
  install_metrics-IsQuiet (inl (ExporterErr.failed err)) w h = (refl, refl)

  setup_tracing-IsQuiet :
      (w : W) → is_valid f cfg ≡ true → IsQuiet (err_of (setup_tracing f o g cfg w).0)
  unfolding setup_tracing
  setup_tracing-IsQuiet w valid = elim (Bool-cases cfg.tracing.enabled) [
    | inr off ↦ rw off (refl, refl)
    | inl on ↦ rw on (
        install_tracing-IsQuiet (new_tracing_exporter o cfg.tracing.exporter) w
          (is_unknown-new_tracing_exporter o cfg.tracing.exporter ∙ ground (arith, valid, on)))
  ]

  setup_metrics-IsQuiet :
      (w : W) → is_valid f cfg ≡ true → IsQuiet (err_of (setup_metrics f o g cfg w).0)
  unfolding setup_metrics
  setup_metrics-IsQuiet w valid = elim (Bool-cases cfg.metrics.enabled) [
    | inr off ↦ rw off (refl, refl)
    | inl on ↦ rw on (
        install_metrics-IsQuiet (new_metrics_reader o cfg.metrics.exporter) w
          (is_unknown-new_metrics_reader o cfg.metrics.exporter ∙ ground (arith, valid, on)))
  ]

  with_metrics-IsQuiet :
      (tp : Option (TracerProvider (f.F) X)) (r : (SetupErr ⊎ Option (MeterProvider X)) × W)
      → IsQuiet (err_of (r.0))
      → IsQuiet (err_of (with_metrics f o g cfg tp r).0)
  with_metrics-IsQuiet tp (inl err, w) h = h
  with_metrics-IsQuiet tp (inr mp, w) h = (refl, refl)

  with_tracing-IsQuiet :
      (r : (SetupErr ⊎ Option (TracerProvider (f.F) X)) × W)
      → is_valid f cfg ≡ true
      → IsQuiet (err_of (r.0))
      → IsQuiet (err_of (with_tracing f o g cfg r).0)
  with_tracing-IsQuiet (inl err, w) valid h = h
  with_tracing-IsQuiet (inr tp, w) valid h =
      with_metrics-IsQuiet tp (setup_metrics f o g cfg w) (setup_metrics-IsQuiet w valid)

  with_resource-IsQuiet :
      (r : Option Text) (w : W)
      → is_valid f cfg ≡ true
      → IsQuiet (err_of (with_resource f o g cfg r w).0)
  with_resource-IsQuiet (some err) w valid = (refl, refl)
  with_resource-IsQuiet none w valid =
      with_tracing-IsQuiet (setup_tracing f o g cfg w) valid (setup_tracing-IsQuiet w valid)

  with_config_lem :
      (v : Option ConfigErr) (w : W)
      → is_some v ≡ not (is_valid f cfg)
      → (is_invalid_config (err_of (with_config f o g cfg v w).0) ≡ not (is_valid f cfg))
        × (is_unknown_exporter (err_of (with_config f o g cfg v w).0) ≡ false)
  with_config_lem (some err) w h = (h, refl)
  with_config_lem none w h =
      let valid : is_valid f cfg ≡ true = ground (arith, h) in
      let (fine, known) =
        with_resource-IsQuiet (g.new_resource cfg.service_name cfg.version) w valid in
      (fine ∙ h, known)

  -- NewObserver refuses a configuration as invalid exactly if Validate does, and never fails because the
  -- exporters' factories do not know an exporter's name: the two packages agree on the names.
  pub new_observer-validate :
      (w : W)
      → (is_invalid_config (err_of (new_observer f o g cfg w).0) ≡ not (is_valid f cfg))
        × (is_unknown_exporter (err_of (new_observer f o g cfg w).0) ≡ false)
  unfolding new_observer
  new_observer-validate w = with_config_lem (validate f cfg) w (validate-is_valid f cfg)
