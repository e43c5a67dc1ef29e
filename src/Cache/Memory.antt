-- ===== src/Cache/Memory.antt =====
-- cache/memory.go: the cache in memory.
pub mod Lookup
pub mod Timed
pub mod Interleaving
use toolops.Base.{ℕ, ◌≡◌, Bool, true, false, Option, none, some, List, [], if◌then◌else◌}
use toolops.Base.Int.{ℤ, pos, leb_ℤ}
use toolops.Base.Time.{Instant, Duration, add, after}
use toolops.Base.Text.{Text}
use toolops.Base.StringMap.{StringMap, lookup, insert, erase}
use toolops.Base.World.{Cell}
use toolops.Cache.Key.{Cache}
use toolops.Cache.Policy.{Policy}

pub record CacheEntry : Type 0 where
  pub value : Text
  pub expires_at : Instant

pub record MemoryCache : Type 0 where
  pub entries : StringMap CacheEntry
  pub policy : Policy

unfoldable pub new_memory_cache : Policy → MemoryCache
new_memory_cache policy = record { entries = []; policy = policy }

-- Get reads under the read lock, and compares with the time after it. `expired` is an entry whose time
-- is past.
pub data Reading : Type 0 where
  missing : Reading
  expired : Reading
  hit : Text → Reading

unfoldable pub read : Instant → Text → MemoryCache → Reading
read now key c = elim (lookup key c.entries) [
  | none ↦ missing
  | some entry ↦ if after now entry.expires_at then expired else hit entry.value
]

-- The rest of Get, in a section of its own: an expired entry is deleted by its key.
unfoldable pub finish_get : Text → Reading → MemoryCache → Option Text × MemoryCache
finish_get key missing c = (none, c)
finish_get key expired c = (none, record c { entries = erase key c.entries })
finish_get key (hit value) c = (some value, c)

-- Get with no other goroutine between its sections.
unfoldable pub get : Instant → Text → MemoryCache → Option Text × MemoryCache
unfolding read finish_get
get now key c = finish_get key (read now key c) c

unfoldable pub set : Instant → Text → Text → Duration → MemoryCache → MemoryCache
set now key value ttl c = if leb_ℤ ttl (pos 0) then c else record c {
  entries = insert key (record { value = value; expires_at = add now ttl }) c.entries;
}

unfoldable pub delete : Text → MemoryCache → MemoryCache
delete key c = record c { entries = erase key c.entries }

-- The cache and the clock in the world.
pub record Host (W : Type 0) : Type 0 where
  pub memory : Cell W MemoryCache
  pub now : W → Instant

-- MemoryCache as a Cache; Set and Delete return no error.
module _ {W : Type 0} (h : Host W) where
  open h use {memory, now}

  unfoldable pub as_cache : Cache W
  as_cache = record {
    get = λ key w. let (v, c) = get (now w) key (memory.get w) in (v, memory.put c w);
    set = λ key value ttl w. (none, memory.put (set (now w) key value ttl (memory.get w)) w);
    delete = λ key w. (none, memory.put (delete key (memory.get w)) w);
  }
