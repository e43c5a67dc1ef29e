-- ===== src/Cache/Memory/Timed.antt =====
-- The cache against a map of timed values, in which nothing is ever cleaned up, over any sequence of calls.
use toolops.Base.{◌≡◌, refl, ap, ◌∙◌, ◌≤◌, Option, none, some, List, [], ◌∷◌, arith, if◌then◌else◌}
use toolops.Base.Int.{pos, leb_ℤ}
use toolops.Base.Time.{Instant, Duration, add, after}
use toolops.Base.Text.{Text, ◌=ᵗ◌, =ᵗ_iff}
use toolops.Base.StringMap.{lookup, lookup-insert, lookup-erase}
use toolops.Cache.Policy.{Policy}
use toolops.Cache.Memory.{MemoryCache, CacheEntry, new_memory_cache, get, set, delete}

-- A call of the cache.
pub data Call : Type 0 where
  gets : Text → Call
  sets : Text → Text → Duration → Call
  deletes : Text → Call

-- What the Gets among the calls answer, each call at its time.
pub answers : List (Instant × Call) → MemoryCache → List (Option Text)
answers [] c = []
answers ((now, gets k) ∷ calls) c = let (v, c') = get now k c in v ∷ answers calls c'
answers ((now, sets k v ttl) ∷ calls) c = answers calls (set now k v ttl c)
answers ((now, deletes k) ∷ calls) c = answers calls (delete k c)

-- The abstract view: the last value written under each key, with its time.
abbrev pub Timed : Type 0
Timed = Text → Option CacheEntry

abbrev pub live : Instant → Option CacheEntry → Option Text
live now none = none
live now (some e) = if after now e.expires_at then none else some e.value

abbrev pub update : Text → Option CacheEntry → Timed → Timed
update k e s = λ j. if k =ᵗ j then e else s j

abbrev pub written : Instant → Text → Text → Duration → Timed → Timed
written now k v ttl s =
    if leb_ℤ ttl (pos 0)
    then s
    else update k (some (record { value = v; expires_at = add now ttl })) s

unfoldable pub timed_answers : List (Instant × Call) → Timed → List (Option Text)
timed_answers [] s = []
timed_answers ((now, gets k) ∷ calls) s = live now (s k) ∷ timed_answers calls s
timed_answers ((now, sets k v ttl) ∷ calls) s = timed_answers calls (written now k v ttl s)
timed_answers ((now, deletes k) ∷ calls) s = timed_answers calls (update k none s)

-- No call comes before an earlier one in the list, and none before the time.
abbrev pub IsChronological : Instant → List (Instant × Call) → Type 0
IsChronological start [] = Unit
IsChronological start ((now, call) ∷ calls) = (start ≤ now) × IsChronological now calls

-- From the time on, the two show the same.
abbrev Agree : Instant → MemoryCache → Timed → Type 0
Agree now c s =
    (k : Text) (later : Instant) → now ≤ later → live later (lookup k c.entries) ≡ live later (s k)

get-live :
    (now : Instant) (k : Text) (c : MemoryCache) → (get now k c).0 ≡ live now (lookup k c.entries)
unfolding get
get-live now k c = ground arith

get-Agree :
    (start now : Instant) (k : Text) (c : MemoryCache) (s : Timed)
    → start ≤ now
    → Agree start c s
    → Agree now (get now k c).1 s
unfolding get
get-Agree start now k c s order agree j later order' =
    ground (arith, lookup-erase k j c.entries, =ᵗ_iff k j, agree j later (omega arith))

set-Agree :
    (start now : Instant) (k v : Text) (ttl : Duration) (c : MemoryCache) (s : Timed)
    → start ≤ now
    → Agree start c s
    → Agree now (set now k v ttl c) (written now k v ttl s)
unfolding set
set-Agree start now k v ttl c s order agree j later order' = ground (
  arith,
  lookup-insert k j (record { value = v; expires_at = add now ttl }) c.entries,
  agree j later (omega arith),
)

delete-Agree :
    (start now : Instant) (k : Text) (c : MemoryCache) (s : Timed)
    → start ≤ now
    → Agree start c s
    → Agree now (delete k c) (update k none s)
unfolding delete
delete-Agree start now k c s order agree j later order' =
    ground (arith, lookup-erase k j c.entries, agree j later (omega arith))

answers-timed :
    (start : Instant) (calls : List (Instant × Call)) (c : MemoryCache) (s : Timed)
    → IsChronological start calls
    → Agree start c s
    → answers calls c ≡ timed_answers calls s
unfolding answers timed_answers
answers-timed start [] c s chronological agree = refl
answers-timed start ((now, gets k) ∷ calls) c s (order, rest) agree =
    ap (λ v. v ∷ answers calls (get now k c).1) (get-live now k c ∙ agree k now order)
    ∙ ap (λ vs. live now (s k) ∷ vs)
        (answers-timed now calls (get now k c).1 s rest (get-Agree start now k c s order agree))
answers-timed start ((now, sets k v ttl) ∷ calls) c s (order, rest) agree =
    answers-timed now calls _ _ rest (set-Agree start now k v ttl c s order agree)
answers-timed start ((now, deletes k) ∷ calls) c s (order, rest) agree =
    answers-timed now calls _ _ rest (delete-Agree start now k c s order agree)

-- Over calls whose times never go back, a new cache with its cleanup in Get answers as the map of timed
-- values that only Set with a positive TTL and Delete change.
pub answers-timed_answers :
    (policy : Policy) (start : Instant) (calls : List (Instant × Call))
    → IsChronological start calls
    → answers calls (new_memory_cache policy) ≡ timed_answers calls (λ k. none)
unfolding new_memory_cache lookup
answers-timed_answers policy start calls chronological =
    answers-timed start calls (new_memory_cache policy) (λ k. none) chronological
      (λ k later order. refl)
