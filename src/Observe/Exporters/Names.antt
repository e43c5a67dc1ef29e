-- ===== src/Observe/Exporters/Names.antt =====
-- Which names the factories refuse.
use toolops.Base.{
  ◌≡◌, refl, ◌∙◌, Bool, true, false, ◌||◌, not, [], if◌then◌else◌, ◌⊎◌, inl, inr, arith,
}
use toolops.Base.Text.{Text, bytes, ◌=ᵗ◌, =ᵗ_iff, member}
use toolops.Observe.Config.{valid_tracing_exporters, valid_metrics_exporters}
use toolops.Observe.Exporters.{
  discard, stdout, has_endpoint, err_endpoint_not_configured, periodic_of, reader_of, Otel,
  ExporterErr, Reader, created, new_tracing_exporter, new_metrics_reader,
}

-- Whether the factory refused a name.
abbrev pub is_unknown : {A : Type 0} → ExporterErr ⊎ A → Bool
is_unknown (inl (ExporterErr.err_invalid_exporter name)) = true
is_unknown _ = false

=ᵗ_sym : (s t : Text) → (s =ᵗ t) ≡ (t =ᵗ s)
=ᵗ_sym s t = ground (arith, =ᵗ_iff s t, =ᵗ_iff t s)

module _ {X : Type 0} where
  is_unknown-created : (r : Text ⊎ X) → is_unknown (created r) ≡ false
  is_unknown-created (inl err) = refl
  is_unknown-created (inr x) = refl

  is_unknown-periodic_of : (r : Text ⊎ X) → is_unknown (periodic_of r) ≡ false
  is_unknown-periodic_of (inl err) = refl
  is_unknown-periodic_of (inr x) = refl

  is_unknown-reader_of : (r : Text ⊎ X) → is_unknown (reader_of r) ≡ false
  is_unknown-reader_of (inl err) = refl
  is_unknown-reader_of (inr x) = refl

-- A choice among five names, by the comparisons.
is_unknown-choice :
    {A : Type 0} (n1 n2 n3 n4 n5 : Bool) (name : Text) (r1 r2 r3 r4 : ExporterErr ⊎ A)
    → is_unknown r1 ≡ false
    → is_unknown r2 ≡ false
    → is_unknown r3 ≡ false
    → is_unknown r4 ≡ false
    → is_unknown (
        if n1
        then r1
        else if n2
        then r2
        else if n3
        then r3
        else if n4 || n5
        then r4
        else inl (ExporterErr.err_invalid_exporter name))
      ≡ not (n2 || (n3 || (n1 || (n4 || (n5 || false)))))
is_unknown-choice n1 n2 n3 n4 n5 name r1 r2 r3 r4 h1 h2 h3 h4 = ground arith

is_unknown-if :
    {A : Type 0} (b : Bool) (r s : ExporterErr ⊎ A)
    → is_unknown r ≡ false
    → is_unknown s ≡ false
    → is_unknown (if b then r else s) ≡ false
is_unknown-if true r s hr hs = hr
is_unknown-if false r s hr hs = hs

pub is_unknown-new_tracing_exporter :
    {X : Type 0} (o : Otel X) (name : Text)
    → is_unknown (new_tracing_exporter o name) ≡ not (member name valid_tracing_exporters)
unfolding new_tracing_exporter member
is_unknown-new_tracing_exporter {X} o name =
    let missing : ExporterErr ⊎ X = inl err_endpoint_not_configured in
    let grpc : ExporterErr ⊎ X = created o.otlptracegrpc in
    let otlp = has_endpoint o (bytes "OTEL_EXPORTER_OTLP_TRACES_ENDPOINT") in
    let no_jaeger = o.getenv (bytes "OTEL_EXPORTER_JAEGER_ENDPOINT") =ᵗ [] in
    is_unknown-choice (name =ᵗ bytes "stdout") (name =ᵗ bytes "otlp") (name =ᵗ bytes "jaeger")
      (name =ᵗ bytes "none") (name =ᵗ []) name (created (o.stdouttrace stdout))
      (if otlp then grpc else missing) (if no_jaeger then missing else grpc)
      (created (o.stdouttrace discard)) (is_unknown-created (o.stdouttrace stdout))
      (is_unknown-if otlp grpc missing (is_unknown-created o.otlptracegrpc) refl)
      (is_unknown-if no_jaeger missing grpc refl (is_unknown-created o.otlptracegrpc))
      (is_unknown-created (o.stdouttrace discard))
    ∙ ground (
      arith,
      =ᵗ_sym name (bytes "stdout"),
      =ᵗ_sym name (bytes "otlp"),
      =ᵗ_sym name (bytes "jaeger"),
      =ᵗ_sym name (bytes "none"),
      =ᵗ_sym name [],
    )

pub is_unknown-new_metrics_reader :
    {X : Type 0} (o : Otel X) (name : Text)
    → is_unknown (new_metrics_reader o name) ≡ not (member name valid_metrics_exporters)
unfolding new_metrics_reader member
is_unknown-new_metrics_reader {X} o name =
    let missing : ExporterErr ⊎ Reader X = inl err_endpoint_not_configured in
    let grpc : ExporterErr ⊎ Reader X = periodic_of o.otlpmetricgrpc in
    let otlp = has_endpoint o (bytes "OTEL_EXPORTER_OTLP_METRICS_ENDPOINT") in
    is_unknown-choice (name =ᵗ bytes "stdout") (name =ᵗ bytes "otlp") (name =ᵗ bytes "prometheus")
      (name =ᵗ bytes "none") (name =ᵗ []) name (periodic_of (o.stdoutmetric stdout))
      (if otlp then grpc else missing) (reader_of o.prometheus)
      (periodic_of (o.stdoutmetric discard)) (is_unknown-periodic_of (o.stdoutmetric stdout))
      (is_unknown-if otlp grpc missing (is_unknown-periodic_of o.otlpmetricgrpc) refl)
      (is_unknown-reader_of o.prometheus) (is_unknown-periodic_of (o.stdoutmetric discard))
    ∙ ground (
      arith,
      =ᵗ_sym name (bytes "stdout"),
      =ᵗ_sym name (bytes "otlp"),
      =ᵗ_sym name (bytes "prometheus"),
      =ᵗ_sym name (bytes "none"),
      =ᵗ_sym name [],
    )
