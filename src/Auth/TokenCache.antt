-- ===== src/Auth/TokenCache.antt =====
-- auth/oauth2_introspection.go, the cache of tokens.
use toolops.Base.{Option, none, some, [], if◌then◌else◌}
use toolops.Base.Time.{Instant, Duration, add, after}
use toolops.Base.Text.{Text}
use toolops.Base.StringMap.{StringMap, lookup, insert}
use toolops.Auth.Identity.{Identity}

pub record CacheEntry : Type 0 where
  pub identity : Identity
  pub expires_at : Instant

pub record TokenCache : Type 0 where
  pub entries : StringMap CacheEntry

unfoldable pub new_token_cache : TokenCache
new_token_cache = record { entries = [] }

abbrev unexpired : Instant → Option CacheEntry → Option Identity
unexpired now none = none
unexpired now (some entry) = if after now entry.expires_at then none else some entry.identity

-- `Get` and `Set` of the cache.
unfoldable pub cached : Instant → Text → TokenCache → Option Identity
unfolding lookup
cached now token_hash c = unexpired now (lookup token_hash c.entries)

unfoldable pub remember : Instant → Text → Identity → Duration → TokenCache → TokenCache
unfolding insert
remember now token_hash identity ttl c = record {
  entries = insert token_hash (record { identity = identity; expires_at = add now ttl }) c.entries;
}
