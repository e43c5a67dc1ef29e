-- ===== src/Cache/Keyer.antt =====
-- cache/keyer.go: cache keys from a tool and its input.
--
-- json.Marshal and SHA-256 with hex are parameters: `marshal` gives the JSON of a value that is neither
-- nil, a map nor a slice, or its failure, `quote` that of a key, and `fingerprint` the hex of the first
-- eight bytes of the hash.
pub mod Order
pub mod Determinism
use toolops.Base.{
  ℕ, Bool, true, false, ◌&&◌, ◌||◌, Option, none, some, List, [], ◌∷◌, ◌++◌, ltb, ◌==◌,
  if◌then◌else◌,
}
use toolops.Base.Text.{Text, bytes}
use toolops.Base.Sort.{before}

-- An input. The entries of a map stand in the order of a `range`; `leaf` names any other value.
mutual
  pub data Value : Type 0 where
    null : Value
    leaf : ℕ → Value
    arr : Values → Value
    obj : Entries → Value

  pub data Values : Type 0 where
    no_values : Values
    value : Value → Values → Values

  pub data Entries : Type 0 where
    no_entries : Entries
    entry : Text → Value → Entries → Entries

-- sort.Strings, on keys with what belongs to them.
pub insert_key : Text → Option Text → List (Text × Option Text) → List (Text × Option Text)
insert_key k v [] = (k, v) ∷ []
insert_key k v ((j, w) ∷ es) =
    if before k j then (k, v) ∷ (j, w) ∷ es else (j, w) ∷ insert_key k v es

pub sort_keys : List (Text × Option Text) → List (Text × Option Text)
unfolding insert_key
sort_keys [] = []
sort_keys ((k, v) ∷ es) = insert_key k v (sort_keys es)

-- The bytes so far, with a comma unless the next element is the first.
abbrev comma : Bool → Text → Text
comma first result = if first then result else result ++ bytes ","

-- The loop of canonicalizeSlice; `none` is an error.
pub join_values : Bool → Text → List (Option Text) → Option Text
join_values first result [] = some (result ++ bytes "]")
join_values first result (none ∷ vs) = none
join_values first result (some v ∷ vs) = join_values false (comma first result ++ v) vs

module _ (marshal : ℕ → Option Text) (quote : Text → Option Text) where
  abbrev member_bytes : Option Text → Option Text → Option Text
  member_bytes none v = none
  member_bytes (some k) none = none
  member_bytes (some k) (some v) = some (k ++ bytes ":" ++ v)

  -- The loop of canonicalizeMap, on the sorted keys with the canonical bytes of their values.
  pub join_entries : Bool → Text → List (Text × Option Text) → Option Text
  join_entries first result [] = some (result ++ bytes "}")
  join_entries first result ((k, v) ∷ es) = elim (member_bytes (quote k) v) [
    | none ↦ none
    | some b ↦ join_entries false (comma first result ++ b) es
  ]

  mutual
    unfolding join_values join_entries sort_keys

    pub canonicalize : Value → Option Text
    canonicalize null = some (bytes "null")
    canonicalize (leaf n) = marshal n
    canonicalize (arr vs) = join_values true (bytes "[") (canonical_values vs)
    canonicalize (obj es) = join_entries true (bytes "{") (sort_keys (canonical_entries es))

    pub canonical_values : Values → List (Option Text)
    canonical_values no_values = []
    canonical_values (value v vs) = canonicalize v ∷ canonical_values vs

    -- Each key with `canonicalize(m[k])`.
    pub canonical_entries : Entries → List (Text × Option Text)
    canonical_entries no_entries = []
    canonical_entries (entry k v es) = (k, canonicalize v) ∷ canonical_entries es

  -- Key, without the text of its error.
  unfoldable pub key : (Text → Text) → Text → Value → Option Text
  unfolding canonicalize
  key fingerprint tool_id input = elim (canonicalize input) [
    | none ↦ none
    | some canonical ↦ some (bytes "cache:" ++ tool_id ++ bytes ":" ++ fingerprint canonical)
  ]
