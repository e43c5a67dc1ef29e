-- ===== src/Cache/Tests.antt =====
-- The theorems of package cache at concrete inputs.
pub mod Sequences
pub mod Composed
use toolops.Base.{◌+◌, Option, ℕ, ◌≡◌, refl, false, none, some, [], ◌∷◌, arith, if◌then◌else◌}
use toolops.Base.Int.{pos}
use toolops.Base.Time.{Instant, add, after}
use toolops.Base.Text.{Text, bytes, ◌=ᵗ◌}
use toolops.Base.StringMap.{lookup}
use toolops.Cache.Key.{other}
use toolops.Cache.Policy.{Policy, should_cache, effective_ttl}
use toolops.Cache.Memory.{MemoryCache, Host, read, finish_get, get, set, as_cache}
use toolops.Cache.Memory.Lookup.{get-set, late_cleanup_loses}
use toolops.Cache.Middleware.{CacheMiddleware, ExecutorFunc, execute}
use toolops.Cache.Middleware.Execution.{IsCaching, looked, execute_twice}
use toolops.Cache.Keyer.{Value, leaf, obj, no_entries, entry, key}
use toolops.Cache.Keyer.Determinism.{
  SameValue, same_leaf, same_obj, same_empty, same_entry, swapped, via, key_same,
}

abbrev pub brief : Policy
brief = record { default_ttl = pos 10; max_ttl = pos 15; allow_unsafe = false }

-- An entry that was stored until 5.
abbrev pub one_entry : MemoryCache
one_entry = record {
  entries = (bytes "k", record { value = bytes "v"; expires_at = 5 }) ∷ [];
  policy = brief;
}

late_cleanup_loses_example :
    ((get 7 (bytes "k") (set 6 (bytes "k") (bytes "w") (pos 10) one_entry)).0 ≡ some (bytes "w"))
    × ((get 7
          (bytes "k")
          (finish_get
            (bytes "k")
            (read 6 (bytes "k") one_entry)
            (set 6 (bytes "k") (bytes "w") (pos 10) one_entry)).1).0
        ≡ none)
unfolding read lookup ◌=ᵗ◌
late_cleanup_loses_example =
    late_cleanup_loses 6 7 (bytes "k") (bytes "w") (pos 10) one_entry refl (ground arith)
      (ground arith)

-- The cache and the clock.
abbrev pub Bench : Type 0
Bench = MemoryCache × Instant

abbrev pub bench : Host Bench
bench = record {
  memory = record { get = λ w. w.0; put = λ c w. (c, w.1); get-put = λ c w. refl };
  now = λ w. w.1;
}

-- {"b": {"c": 1, "a": 2}, "a": 3} in two orders.
abbrev pub nested : Value
nested = obj (
    entry (bytes "b") (obj (entry (bytes "c") (leaf 1) (entry (bytes "a") (leaf 2) no_entries)))
      (entry (bytes "a") (leaf 3) no_entries))

abbrev pub turned : Value
turned = obj (
    entry (bytes "a") (leaf 3) (
      entry (bytes "b") (obj (entry (bytes "a") (leaf 2) (entry (bytes "c") (leaf 1) no_entries)))
        no_entries))

abbrev pub digit : ℕ → Option Text
digit n = some ((48 + n) ∷ [])

pub nested-turned : SameValue nested turned
unfolding ◌=ᵗ◌
nested-turned = same_obj (
    via
      (same_entry (bytes "b")
        (same_obj (swapped (bytes "c") (bytes "a") (leaf 1) (leaf 2) no_entries refl))
        (same_entry (bytes "a") (same_leaf 3) same_empty))
      (swapped (bytes "b") (bytes "a") _ (leaf 3) no_entries refl))
