-- ===== src/Cache/Middleware/Execution.antt =====
-- Execute over any cache that keeps what it is given.
use toolops.Base.{
  lt→ltb, ◌≤◌, ◌≡◌, refl, Option, ap, ◌∙◌, true, false, ◌&&◌, not, none, some, List, if◌then◌else◌,
}
use toolops.Base.Int.{pos, ◌<ℤ◌}
use toolops.Base.Time.{Instant, add}
use toolops.Base.Text.{Text}
use toolops.Cache.Key.{Err}
use toolops.Cache.Policy.{should_cache, effective_ttl, effective_ttl_bounds}
use toolops.Cache.Timed.{IsTimed}
use toolops.Cache.Middleware.{CacheMiddleware, ExecutorFunc, execute, store, answer, with_key}

module _ {I W : Type 0} (m : CacheMiddleware I W) (tool_id : Text) (input : I)
    (tags : List Text) where
  -- The conditions under which Execute asks the cache, with the key that it asks for.
  pub record IsCaching (key : Text) : Type 0 where
    pub not_skipped : (not m.policy.allow_unsafe && m.skip_rule tool_id tags) ≡ false
    pub enabled : should_cache m.policy ≡ true
    pub keyed : m.keyer tool_id input ≡ some key

  execute_caching :
      (key : Text) (executor : ExecutorFunc I W) (w : W)
      → IsCaching key
      → execute m tool_id input tags executor w
        ≡ answer m key (executor tool_id input) (m.cache.get key w)
  unfolding execute
  execute_caching key executor w c = rw c.not_skipped (rw c.enabled (rw (c.keyed, with_key)))

  answer_found :
      (key : Text) (run : W → (Text × Option Err) × W) (r : Option Text × W) (cached : Text)
      → r.0 ≡ some cached
      → answer m key run r ≡ ((cached, none), r.1)
  answer_found key run (o, w) cached is = rw is refl

  answer_missed :
      (key : Text) (run : W → (Text × Option Err) × W) (r : Option Text × W)
      → r.0 ≡ none
      → answer m key run r ≡ store m key (run r.1)
  answer_missed key run (o, w) is = rw is refl

  module _ (key : Text) (caching : IsCaching key) where
    -- The world after a lookup.
    abbrev pub looked : W → W
    looked w = (m.cache.get key w).1

    -- Where Execute asks the cache and the key is found, it returns the stored bytes and no error, and
    -- does not run the executor.
    pub execute_hit :
        (executor : ExecutorFunc I W) (w : W) (cached : Text)
        → (m.cache.get key w).0 ≡ some cached
        → execute m tool_id input tags executor w ≡ ((cached, none), looked w)
    execute_hit executor w cached found =
        execute_caching key executor w caching
        ∙ answer_found key (executor tool_id input) (m.cache.get key w) cached found

    -- Where Execute asks the cache: an execution that misses and fails leaves the cache as the executor
    -- left it: errors are not stored.
    pub execute_error :
        (executor : ExecutorFunc I W) (w w' : W) (result : Text) (err : Err)
        → (m.cache.get key w).0 ≡ none
        → executor tool_id input (looked w) ≡ ((result, some err), w')
        → execute m tool_id input tags executor w ≡ ((result, some err), w')
    execute_error executor w w' result err missed ran =
        execute_caching key executor w caching
        ∙ answer_missed key (executor tool_id input) (m.cache.get key w) missed
        ∙ ap (store m key) ran

    ttl_positive : pos 0 <ℤ effective_ttl m.policy (pos 0)
    ttl_positive = (effective_ttl_bounds m.policy (pos 0)).1 caching.enabled

    execute_miss :
        (executor : ExecutorFunc I W) (w w' : W) (result : Text)
        → (m.cache.get key w).0 ≡ none
        → executor tool_id input (looked w) ≡ ((result, none), w')
        → execute m tool_id input tags executor w
          ≡ ((result, none), (m.cache.set key result (effective_ttl m.policy (pos 0)) w').1)
    execute_miss executor w w' result missed ran =
        execute_caching key executor w caching
        ∙ answer_missed key (executor tool_id input) (m.cache.get key w) missed
        ∙ ap (store m key) ran
        ∙ ap
            (λ b.
              if b
              then ((result, none), (m.cache.set key result (effective_ttl m.policy (pos 0)) w').1)
              else ((result, none), w'))
            (lt→ltb _ _ ttl_positive)

    module _ {S : Type 0} (now : W → Instant) (view : W → S)
        (timed : IsTimed m.cache now view) where
      -- After an execution that missed and succeeded, the key is found within the TTL.
      pub get-execute :
          (executor : ExecutorFunc I W) (w w' v : W) (result : Text)
          → (m.cache.get key w).0 ≡ none
          → executor tool_id input (looked w) ≡ ((result, none), w')
          → view v ≡ view (execute m tool_id input tags executor w).1
          → now v ≤ add (now w') (effective_ttl m.policy (pos 0))
          → (m.cache.get key v).0 ≡ some result
      get-execute executor w w' v result missed ran same early =
          timed.get-set key result (effective_ttl m.policy (pos 0)) w' v ttl_positive
            (same ∙ ap (λ r. view r.1) (execute_miss executor w w' result missed ran)) early

      -- Where Execute asks the cache: after an execution that missed and succeeded, an execution with the
      -- same key within the TTL returns the stored bytes, whatever its own executor would return, if the
      -- cache was left alone meanwhile.
      pub execute_twice :
          (executor other_executor : ExecutorFunc I W) (w w' v : W) (result : Text)
          → (m.cache.get key w).0 ≡ none
          → executor tool_id input (looked w) ≡ ((result, none), w')
          → view v ≡ view (execute m tool_id input tags executor w).1
          → now v ≤ add (now w') (effective_ttl m.policy (pos 0))
          → execute m tool_id input tags other_executor v ≡ ((result, none), looked v)
      execute_twice executor other_executor w w' v result missed ran same early =
          execute_hit other_executor v result
            (get-execute executor w w' v result missed ran same early)
