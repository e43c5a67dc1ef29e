-- ===== src/Auth/Claims.antt =====
-- Values of type `any` as the authenticators and the factories read them: a type assertion with `ok`
-- is `none` where it fails.
pub mod Reading
use toolops.Base.{Bool, Option, none, some, List, [], ◌∷◌}
use toolops.Base.Int.{ℤ}
use toolops.Base.Text.{Text}
use toolops.Base.StringMap.{StringMap, lookup}
use toolops.Auth.Identity.{
  Any, boolean, float, str, arr, obj, Items, no_items, item, Fields, no_fields, field,
}

abbrev pub Claims : Type 0
Claims = StringMap Any

-- `v.(string)`
abbrev pub as_string : Option Any → Option Text
as_string (some (str s)) = some s
as_string _ = none

-- `v.(bool)`
abbrev pub as_bool : Option Any → Option Bool
as_bool (some (boolean b)) = some b
as_bool _ = none

-- `int64(v.(float64))`
abbrev pub as_seconds : Option Any → Option ℤ
as_seconds (some (float n)) = some n
as_seconds _ = none

-- `v.([]any)`
abbrev pub as_items : Option Any → Option Items
as_items (some (arr xs)) = some xs
as_items _ = none

unfoldable pub fields_of : Fields → Claims
fields_of no_fields = []
fields_of (field k v fs) = (k, v) ∷ fields_of fs

-- `v.(map[string]any)`
unfoldable pub as_map : Option Any → Option Claims
unfolding fields_of
as_map (some (obj fs)) = some (fields_of fs)
as_map _ = none

abbrev cons_string : Option Text → List Text → List Text
cons_string none ss = ss
cons_string (some s) ss = s ∷ ss

-- The loop that keeps the strings of a slice.
unfoldable pub strings_of : Items → List Text
strings_of no_items = []
strings_of (item v vs) = cons_string (as_string (some v)) (strings_of vs)

-- `if v, ok := m[key].(string); ok { field = v }` on a field that is empty before.
unfoldable pub string_at : Text → Claims → Text
unfolding lookup
string_at key claims = elim (as_string (lookup key claims)) [ none ↦ [] | some s ↦ s ]

unfoldable pub strings_at : Text → Claims → List Text
unfolding lookup strings_of
strings_at key claims = elim (as_items (lookup key claims)) [ none ↦ [] | some vs ↦ strings_of vs ]
