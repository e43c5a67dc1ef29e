-- ===== src/Cache/Policy.antt =====
-- cache/policy.go: how long a result is kept.
use toolops.Base.{◌*◌, ◌≡◌, ◌⊎◌, Bool, true, false, ◌&&◌, arith, if◌then◌else◌}
use toolops.Base.Int.{pos, leb_ℤ, ltb_ℤ, ◌≤ℤ◌, ◌<ℤ◌}
use toolops.Base.Time.{Duration, second}

pub record Policy : Type 0 where
  pub default_ttl : Duration
  pub max_ttl : Duration
  pub allow_unsafe : Bool

unfoldable pub default_policy : Policy
default_policy = record {
  default_ttl = pos (5 * 60 * second);
  max_ttl = pos (60 * 60 * second);
  allow_unsafe = false;
}

unfoldable pub no_cache_policy : Policy
no_cache_policy = record { default_ttl = pos 0; max_ttl = pos 0; allow_unsafe = false }

unfoldable pub should_cache : Policy → Bool
should_cache p = ltb_ℤ (pos 0) p.default_ttl

unfoldable pub effective_ttl : Policy → Duration → Duration
effective_ttl p override =
    let ttl = if leb_ℤ override (pos 0) then p.default_ttl else override in
    if ltb_ℤ (pos 0) p.max_ttl && ltb_ℤ p.max_ttl ttl then p.max_ttl else ttl

-- A set MaxTTL is never passed, and where caching is enabled the TTL is positive, whatever override the
-- caller gives; below both limits a positive override is taken as it is.
pub effective_ttl_bounds :
    (p : Policy) (override : Duration)
    → (pos 0 <ℤ p.max_ttl → effective_ttl p override ≤ℤ p.max_ttl)
      × (should_cache p ≡ true → pos 0 <ℤ effective_ttl p override)
      × (pos 0 <ℤ override
          → (p.max_ttl ≤ℤ pos 0) ⊎ (override ≤ℤ p.max_ttl)
          → effective_ttl p override ≡ override)
unfolding effective_ttl should_cache
effective_ttl_bounds p override = (ground arith, ground arith, ground arith)
