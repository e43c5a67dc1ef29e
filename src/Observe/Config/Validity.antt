-- ===== src/Observe/Config/Validity.antt =====
-- Which configurations Validate accepts.
use toolops.Base.{
  ◌≡◌, refl, ◌∙◌, Bool, true, false, ◌&&◌, ◌||◌, not, Option, none, some, is_some, [],
  if◌then◌else◌, arith,
}
use toolops.Base.Int.{pos}
use toolops.Base.Float.{Float64}
use toolops.Base.Text.{◌=ᵗ◌, member}
use toolops.Observe.Config.{
  or_else, Config, ConfigErr, validate, valid_tracing_exporters, valid_metrics_exporters,
  valid_log_levels,
}

-- The conditions on a configuration, in words of their own.
abbrev pub is_valid : (f : Float64) → Config (f.F) → Bool
is_valid f c =
    not (c.service_name =ᵗ [])
    && (not c.tracing.enabled
        || member c.tracing.exporter valid_tracing_exporters
          && not (f.lt c.tracing.sample_pct (f.of_int (pos 0)))
          && not (f.lt (f.of_int (pos 1)) c.tracing.sample_pct))
    && (not c.metrics.enabled || member c.metrics.exporter valid_metrics_exporters)
    && (not c.logging.enabled || member c.logging.level valid_log_levels)

is_some-or_else : (a b : Option ConfigErr) → is_some (or_else a b) ≡ is_some a || is_some b
is_some-or_else none b = refl
is_some-or_else (some err) b = refl

-- The checks of tracing, by their outcomes.
is_some-tracing :
    (enabled known low high : Bool) (e1 e2 : ConfigErr)
    → is_some (
        if not enabled
        then none
        else if not known
        then some e1
        else if low || high
        then some e2
        else none)
      ≡ not (not enabled || known && not low && not high)
is_some-tracing enabled known low high e1 e2 = ground arith

is_some-part :
    (enabled known : Bool) (e : ConfigErr)
    → is_some (if enabled && not known then some e else none) ≡ not (not enabled || known)
is_some-part enabled known e = ground arith

is_some-parts :
    (empty t m l : Bool) (e : ConfigErr) (a b c : Option ConfigErr)
    → is_some a ≡ not t
    → is_some b ≡ not m
    → is_some c ≡ not l
    → is_some (if empty then some e else or_else a (or_else b c)) ≡ not (not empty && t && m && l)
is_some-parts true t m l e a b c ha hb hc = refl
is_some-parts false t m l e a b c ha hb hc =
    is_some-or_else a (or_else b c) ∙ ground (arith, is_some-or_else b c)

-- Validate accepts a configuration exactly if it names a service, each part that is enabled names one of its
-- known exporters or levels, and the sample percentage of enabled tracing is neither below 0 nor above 1
-- (which a NaN is not).
pub validate-is_valid :
    (f : Float64) (c : Config (f.F)) → is_some (validate f c) ≡ not (is_valid f c)
unfolding validate
validate-is_valid f c =
    is_some-parts (c.service_name =ᵗ []) _ _ _ _ _ _ _
      (is_some-tracing c.tracing.enabled (member c.tracing.exporter valid_tracing_exporters)
        (f.lt c.tracing.sample_pct (f.of_int (pos 0)))
        (f.lt (f.of_int (pos 1)) c.tracing.sample_pct) _ _)
      (is_some-part c.metrics.enabled (member c.metrics.exporter valid_metrics_exporters) _)
      (is_some-part c.logging.enabled (member c.logging.level valid_log_levels) _)
