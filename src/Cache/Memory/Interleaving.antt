-- ===== src/Cache/Memory/Interleaving.antt =====
-- The critical sections of concurrent calls in any order: a Get may miss too much, but what it finds is right.
use toolops.Base.{Option-cases, inl, inr, ◌≡◌, none, some, List, [], ◌∷◌, arith}
use toolops.Base.Time.{Instant, Duration, add}
use toolops.Base.Text.{Text}
use toolops.Base.StringMap.{lookup, lookup-insert, lookup-erase}
use toolops.Cache.Policy.{Policy}
use toolops.Cache.Memory.{
  MemoryCache, CacheEntry, hit, expired, read, finish_get, new_memory_cache, set, delete,
}
use toolops.Cache.Memory.Timed.{Timed, live, update, written}

-- A section that a mutex guards and that writes: the cleanup of a Get whose reading was `expired`, which may
-- come at any time after the reading, a Set and a Delete.
pub data Section : Type 0 where
  cleans : Text → Section
  sets : Instant → Text → Text → Duration → Section
  deletes : Text → Section

unfoldable pub sections : List Section → MemoryCache → MemoryCache
sections [] c = c
sections (cleans k ∷ rest) c = sections rest (finish_get k expired c).1
sections (sets now k v ttl ∷ rest) c = sections rest (set now k v ttl c)
sections (deletes k ∷ rest) c = sections rest (delete k c)

-- The Sets and the Deletes alone, on the abstract view.
pub writes : List Section → Timed → Timed
writes [] s = s
writes (cleans k ∷ rest) s = writes rest s
writes (sets now k v ttl ∷ rest) s = writes rest (written now k v ttl s)
writes (deletes k ∷ rest) s = writes rest (update k none s)

-- An entry of the cache is that of the abstract view.
abbrev IsSound : MemoryCache → Timed → Type 0
IsSound c s = (k : Text) (e : CacheEntry) → lookup k c.entries ≡ some e → s k ≡ some e

clean-IsSound :
    (k : Text) (c : MemoryCache) (s : Timed) → IsSound c s → IsSound (finish_get k expired c).1 s
unfolding finish_get
clean-IsSound k c s sound j e found = sound j e (ground (arith, lookup-erase k j c.entries, found))

set-IsSound :
    (now : Instant) (k v : Text) (ttl : Duration) (c : MemoryCache) (s : Timed)
    → IsSound c s
    → IsSound (set now k v ttl c) (written now k v ttl s)
unfolding set
set-IsSound now k v ttl c s sound j e found = ground (
  arith,
  lookup-insert k j (record { value = v; expires_at = add now ttl }) c.entries,
  found,
  sound j e,
)

delete-IsSound :
    (k : Text) (c : MemoryCache) (s : Timed) → IsSound c s → IsSound (delete k c) (update k none s)
unfolding delete
delete-IsSound k c s sound j e found = ground (arith, lookup-erase k j c.entries, found, sound j e)

sections-IsSound :
    (all : List Section) (c : MemoryCache) (s : Timed)
    → IsSound c s
    → IsSound (sections all c) (writes all s)
unfolding sections writes
sections-IsSound [] c s sound = sound
sections-IsSound (cleans k ∷ rest) c s sound = sections-IsSound rest _ s (clean-IsSound k c s sound)
sections-IsSound (sets now k v ttl ∷ rest) c s sound =
    sections-IsSound rest _ _ (set-IsSound now k v ttl c s sound)
sections-IsSound (deletes k ∷ rest) c s sound =
    sections-IsSound rest _ _ (delete-IsSound k c s sound)

read-live :
    (now : Instant) (k v : Text) (c : MemoryCache) (s : Timed)
    → IsSound c s
    → read now k c ≡ hit v
    → live now (s k) ≡ some v
unfolding read
read-live now k v c s sound found = elim (Option-cases (lookup k c.entries)) [
  | inl missing ↦ absurd (ground (arith, missing, found))
  | inr (e, is) ↦ ground (arith, is, found, sound k e is)
]

-- Whatever the order in which concurrent calls enter their sections, late cleanups among them, a value that a
-- Get finds is the last one that was set under its key with a positive TTL and not deleted since, and its
-- TTL has not passed.
pub read-sections :
    (policy : Policy) (all : List Section) (now : Instant) (k v : Text)
    → read now k (sections all (new_memory_cache policy)) ≡ hit v
    → live now (writes all (λ j. none) k) ≡ some v
unfolding new_memory_cache lookup
read-sections policy all now k v found =
    read-live now k v (sections all (new_memory_cache policy)) (writes all (λ j. none))
      (sections-IsSound all (new_memory_cache policy) (λ j. none)
        (λ j e none_there. absurd (ground (arith, none_there))))
      found
