-- ===== src/Cache/Keyer/Determinism.antt =====
-- The same input has the same key, whatever the order in which its maps are ranged over.
use toolops.Base.{ℕ, ◌≡◌, refl, ap, ◌∙◌, true, false, Option}
use toolops.Base.Text.{Text, bytes, ◌=ᵗ◌}
use toolops.Cache.Keyer.{
  Value, null, leaf, arr, obj, Values, no_values, value, Entries, no_entries, entry, sort_keys,
  join_values, join_entries, canonicalize, canonical_values, canonical_entries, key,
}
use toolops.Cache.Keyer.Order.{insert_key_swap}

-- The same input but for the order of the entries of maps, at any depth.
mutual
  pub data SameValue : Value → Value → Type 0 where
    same_null : SameValue null null
    same_leaf : (n : ℕ) → SameValue (leaf n) (leaf n)
    same_arr : {vs ws : Values} → SameValues vs ws → SameValue (arr vs) (arr ws)
    same_obj : {es fs : Entries} → SameEntries es fs → SameValue (obj es) (obj fs)

  pub data SameValues : Values → Values → Type 0 where
    same_none : SameValues no_values no_values
    same_each :
        {v w : Value} {vs ws : Values}
        → SameValue v w
        → SameValues vs ws
        → SameValues (value v vs) (value w ws)

  pub data SameEntries : Entries → Entries → Type 0 where
    same_empty : SameEntries no_entries no_entries
    same_entry :
        (k : Text) {v w : Value} {es fs : Entries}
        → SameValue v w
        → SameEntries es fs
        → SameEntries (entry k v es) (entry k w fs)
    swapped :
        (j k : Text) (v w : Value) (es : Entries)
        → (j =ᵗ k) ≡ false
        → SameEntries (entry j v (entry k w es)) (entry k w (entry j v es))
    via : {es fs gs : Entries} → SameEntries es fs → SameEntries fs gs → SameEntries es gs

module _ (marshal : ℕ → Option Text) (quote : Text → Option Text) where
  mutual
    unfolding canonicalize canonical_values canonical_entries sort_keys

    canonicalize_same :
        {v w : Value} → SameValue v w → canonicalize marshal quote v ≡ canonicalize marshal quote w
    canonicalize_same same_null = refl
    canonicalize_same (same_leaf n) = refl
    canonicalize_same (same_arr s) = ap (join_values true (bytes "[")) (values_same s)
    canonicalize_same (same_obj s) =
        ap (join_entries marshal quote true (bytes "{")) (entries_same s)

    values_same :
        {vs ws : Values}
        → SameValues vs ws
        → canonical_values marshal quote vs ≡ canonical_values marshal quote ws
    values_same same_none = refl
    values_same (same_each s ss) = rw (canonicalize_same s, values_same ss) refl

    entries_same :
        {es fs : Entries}
        → SameEntries es fs
        → sort_keys (canonical_entries marshal quote es)
          ≡ sort_keys (canonical_entries marshal quote fs)
    entries_same same_empty = refl
    entries_same (same_entry k s ss) = rw (canonicalize_same s, entries_same ss) refl
    entries_same (swapped j k v w es differ) = insert_key_swap j k _ _ _ differ
    entries_same (via s t) = entries_same s ∙ entries_same t

  -- Two inputs that differ only in the order of the entries of their maps, at any depth, get the same
  -- key, or both none.
  pub key_same :
      (fingerprint : Text → Text) (tool_id : Text) {v w : Value}
      → SameValue v w
      → key marshal quote fingerprint tool_id v ≡ key marshal quote fingerprint tool_id w
  unfolding key
  key_same fingerprint tool_id s = rw (key, canonicalize_same s) refl
