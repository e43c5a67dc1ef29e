-- ===== src/Cache/Tests/Composed.antt =====
-- The middleware, the default keyer and the cache in memory together.
use toolops.Base.{◌≡◌, refl, none, some, [], arith, false}
use toolops.Base.Text.{Text, bytes, ◌=ᵗ◌}
use toolops.Base.Sort.{before}
use toolops.Base.StringMap.{lookup}
use toolops.Cache.Policy.{effective_ttl, should_cache}
use toolops.Cache.Key.{other}
use toolops.Cache.Memory.{get, as_cache}
use toolops.Cache.Memory.Lookup.{as_cache-IsTimed}
use toolops.Cache.Keyer.{Value, key}
use toolops.Cache.Middleware.{CacheMiddleware, ExecutorFunc, execute}
use toolops.Cache.Middleware.Execution.{IsCaching}
use toolops.Cache.Middleware.SameInput.{execute_same}
use toolops.Cache.Tests.{brief, one_entry, Bench, bench, digit, nested, turned, nested-turned}

abbrev keyed : CacheMiddleware Value Bench
keyed = record {
  cache = as_cache bench;
  keyer = key digit (λ k. some k) (λ s. s);
  policy = brief;
  skip_rule = λ tool tags. false;
}

abbrev the_key : Text
the_key = bytes "cache:t:{a:3,b:{a:2,c:1}}"

abbrev succeeding : ExecutorFunc Value Bench
succeeding tool input w = ((bytes "new", none), w)

abbrev failing : ExecutorFunc Value Bench
failing tool input w = (([], some (other 1)), w)

is_caching : IsCaching keyed (bytes "t") nested [] the_key
unfolding should_cache key before
is_caching = record { not_skipped = refl; enabled = refl; keyed = refl }

-- The second execution comes 4 later.
abbrev stored : Bench
stored = ((execute keyed (bytes "t") nested [] succeeding (one_entry, 6)).1.0, 10)

execute_same_example :
    execute keyed (bytes "t") turned [] failing stored
    ≡ ((bytes "new", none), bench.memory.put (get 10 the_key stored.0).1 stored)
unfolding get lookup effective_ttl ◌=ᵗ◌ as_cache
execute_same_example =
    execute_same digit (λ k. some k) (λ s. s) keyed (bytes "t") [] bench.now (λ w. w.0)
      (as_cache-IsTimed bench) the_key nested turned succeeding failing (one_entry, 6) _ stored
      (bytes "new") refl nested-turned is_caching refl refl refl (ground arith)
