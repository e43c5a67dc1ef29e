-- ===== src/Cache/Memory/Lookup.antt =====
-- What Get finds after the other operations, and what a late cleanup loses.
use toolops.Base.{ap, ◌∙◌, ◌≤◌, ◌≡◌, none, some, arith, if◌then◌else◌}
use toolops.Base.Int.{pos, ◌<ℤ◌}
use toolops.Base.Time.{Instant, Duration, add, after}
use toolops.Base.Text.{Text, ◌=ᵗ◌, =ᵗ_iff}
use toolops.Base.StringMap.{insert, lookup-insert, lookup-erase}
use toolops.Cache.Timed.{IsTimed}
use toolops.Cache.Memory.{
  Host, as_cache, MemoryCache, CacheEntry, expired, read, finish_get, get, set, delete,
}

-- A positive TTL: the key is found with its value until the TTL has passed, and other keys as before.
pub get-set :
    (now later : Instant) (k j : Text) (v : Text) (ttl : Duration) (c : MemoryCache)
    → pos 0 <ℤ ttl
    → (get later j (set now k v ttl c)).0
      ≡ (if k =ᵗ j then if after later (add now ttl) then none else some v else (get later j c).0)
unfolding get set
get-set now later k j v ttl c positive =
    ground (arith, lookup-insert k j (record { value = v; expires_at = add now ttl }) c.entries)

-- After Delete the key is missing, and other keys are found as before.
pub get-delete :
    (later : Instant) (k j : Text) (c : MemoryCache)
    → (get later j (delete k c)).0 ≡ (if k =ᵗ j then none else (get later j c).0)
unfolding get delete
get-delete later k j c = ground (arith, lookup-erase k j c.entries)

-- The cleanup in Get cannot be observed by any Get that comes no earlier.
pub get-get :
    (now later : Instant) (k j : Text) (c : MemoryCache)
    → now ≤ later
    → (get later j (get now k c).1).0 ≡ (get later j c).0
unfolding get
get-get now later k j c order = ground (arith, lookup-erase k j c.entries, =ᵗ_iff k j)

-- Where another goroutine's Set of the same key comes between the two sections of a Get that has
-- read an expired entry, the new value is lost though its TTL has not passed.
pub late_cleanup_loses :
    (now later : Instant) (k v : Text) (ttl : Duration) (c : MemoryCache)
    → read now k c ≡ expired
    → pos 0 <ℤ ttl
    → later ≤ add now ttl
    → ((get later k (set now k v ttl c)).0 ≡ some v)
      × ((get later k (finish_get k (read now k c) (set now k v ttl c)).1).0 ≡ none)
unfolding get set
late_cleanup_loses now later k v ttl c past positive fresh =
    let entry : CacheEntry = record { value = v; expires_at = add now ttl } in
    (
      ground (arith, lookup-insert k k entry c.entries, =ᵗ_iff k k),
      ground (arith, past, lookup-erase k k (insert k entry c.entries), =ᵗ_iff k k),
    )

-- The cache in memory keeps what it is given until its TTL has passed.
pub as_cache-IsTimed : {W : Type 0} (h : Host W) → IsTimed (as_cache h) h.now (λ w. h.memory.get w)
unfolding as_cache
as_cache-IsTimed h = record {
  get-set = λ key value ttl w v positive same early.
      ap (λ c. (get (h.now v) key c).0) (same ∙ h.memory.get-put _ _)
      ∙ get-set (h.now w) (h.now v) key key value ttl (h.memory.get w) positive
      ∙ ground (arith, =ᵗ_iff key key);
}
