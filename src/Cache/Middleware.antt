-- ===== src/Cache/Middleware.antt =====
-- cache/middleware.go: tool execution behind a cache.
pub mod Rules
pub mod Execution
pub mod SameInput
use toolops.Base.{
  ℕ, Bool, true, false, ◌&&◌, not, Option, none, some, List, [], ◌∷◌, any, if◌then◌else◌,
}
use toolops.Base.Int.{ℤ, pos, ltb_ℤ}
use toolops.Base.Text.{Text, bytes, ◌=ᵗ◌, member}
use toolops.Base.Unicode.{Unicode, to_lower}
use toolops.Cache.Key.{Err, Cache}
use toolops.Cache.Policy.{Policy, should_cache, effective_ttl}

abbrev pub SkipRule : Type 0
SkipRule = Text → List Text → Bool

abbrev pub unsafe_tags : List Text
unsafe_tags =
    bytes "write" ∷ bytes "danger" ∷ bytes "unsafe" ∷ bytes "mutation" ∷ bytes "delete" ∷ []

unfoldable pub default_skip_rule : Unicode → SkipRule
default_skip_rule u tool_id tags = any (λ tag. member (to_lower u tag) unsafe_tags) tags

-- `I` is the type of inputs; a keyer returns no key where it fails.
module _ (I W : Type 0) where
  -- ExecutorFunc: the bytes and the error that a tool returns.
  abbrev pub ExecutorFunc : Type 0
  ExecutorFunc = Text → I → W → (Text × Option Err) × W

  pub record CacheMiddleware : Type 0 where
    pub cache : Cache W
    pub keyer : Text → I → Option Text
    pub policy : Policy
    pub skip_rule : SkipRule

  unfoldable pub new_cache_middleware :
      Unicode → Cache W → (Text → I → Option Text) → Policy → Option SkipRule → CacheMiddleware
  new_cache_middleware u cache keyer policy skip_rule = record {
    cache = cache;
    keyer = keyer;
    policy = policy;
    skip_rule = elim skip_rule [ none ↦ default_skip_rule u | some rule ↦ rule ];
  }

module _ {I W : Type 0} (m : CacheMiddleware I W) where
  -- Errors are not stored, and an error of the store is dropped.
  abbrev store : Text → (Text × Option Err) × W → (Text × Option Err) × W
  store key ((result, some err), w) = ((result, some err), w)
  store key ((result, none), w) =
      if ltb_ℤ (pos 0) (effective_ttl m.policy (pos 0))
      then ((result, none), (m.cache.set key result (effective_ttl m.policy (pos 0)) w).1)
      else ((result, none), w)

  abbrev answer : Text → (W → (Text × Option Err) × W) → Option Text × W → (Text × Option Err) × W
  answer key run (some cached, w) = ((cached, none), w)
  answer key run (none, w) = store key (run w)

  abbrev with_key : Option Text → (W → (Text × Option Err) × W) → W → (Text × Option Err) × W
  with_key none run w = run w
  with_key (some key) run w = answer key run (m.cache.get key w)

  unfoldable pub execute : Text → I → List Text → ExecutorFunc I W → W → (Text × Option Err) × W
  execute tool_id input tags executor w =
      let run = executor tool_id input in
      if not m.policy.allow_unsafe && m.skip_rule tool_id tags
      then run w
      else if not (should_cache m.policy)
      then run w
      else with_key (m.keyer tool_id input) run w
