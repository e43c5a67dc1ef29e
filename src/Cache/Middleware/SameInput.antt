-- ===== src/Cache/Middleware/SameInput.antt =====
-- The middleware with the default keyer: inputs that are the same but for the order in which their maps are
-- ranged over share their results.
use toolops.Base.{ℕ, ◌≤◌, ◌≡◌, ap, sym, ◌∙◌, Option, none, List}
use toolops.Base.Int.{pos}
use toolops.Base.Time.{Instant, add}
use toolops.Base.Text.{Text}
use toolops.Cache.Timed.{IsTimed}
use toolops.Cache.Policy.{effective_ttl}
use toolops.Cache.Keyer.{Value, key}
use toolops.Cache.Keyer.Determinism.{SameValue, key_same}
use toolops.Cache.Middleware.{CacheMiddleware, ExecutorFunc, execute}
use toolops.Cache.Middleware.Execution.{IsCaching, execute_hit, get-execute}

module _ (marshal : ℕ → Option Text) (quote : Text → Option Text) (fingerprint : Text → Text)
    {W S : Type 0} (m : CacheMiddleware Value W) (tool_id : Text) (tags : List Text)
    (now : W → Instant) (view : W → S) (timed : IsTimed m.cache now view) (k : Text)
    (input other : Value) where
  other-IsCaching :
      m.keyer ≡ key marshal quote fingerprint
      → SameValue input other
      → IsCaching m tool_id input tags k
      → IsCaching m tool_id other tags k
  other-IsCaching default_keyer same caching = record {
    not_skipped = caching.not_skipped;
    enabled = caching.enabled;
    keyed =
        ap (λ keyer. keyer tool_id other) default_keyer
        ∙ sym (key_same marshal quote fingerprint tool_id same)
        ∙ sym (ap (λ keyer. keyer tool_id input) default_keyer)
        ∙ caching.keyed;
  }

  -- With the default keyer and a cache that keeps what it is given until its TTL has passed, after an
  -- execution that missed and succeeded, an execution within the TTL with an input that differs only in the
  -- order of the entries of its maps returns the stored bytes, whatever its own executor would return, if
  -- Execute asks the cache and the cache was left alone meanwhile.
  pub execute_same :
      (executor other_executor : ExecutorFunc Value W) (w w' v : W) (result : Text)
      → m.keyer ≡ key marshal quote fingerprint
      → SameValue input other
      → IsCaching m tool_id input tags k
      → (m.cache.get k w).0 ≡ none
      → executor tool_id input (m.cache.get k w).1 ≡ ((result, none), w')
      → view v ≡ view (execute m tool_id input tags executor w).1
      → now v ≤ add (now w') (effective_ttl m.policy (pos 0))
      → execute m tool_id other tags other_executor v ≡ ((result, none), (m.cache.get k v).1)
  execute_same executor other_executor w w' v result default_keyer same caching missed ran alone
        early =
      execute_hit m tool_id other tags k (other-IsCaching default_keyer same caching) other_executor
        v result
        (get-execute m tool_id input tags k caching now view timed executor w w' v result missed ran
          alone early)
