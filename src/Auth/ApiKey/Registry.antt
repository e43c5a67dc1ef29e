-- ===== src/Auth/ApiKey/Registry.antt =====
-- The keys that Add and Remove leave in the store in memory, told from the calls.
use toolops.Base.{◌≡◌, subst, ◌≢◌, some, List, [], ◌∷◌, Bool-cases, inl, inr, arith, ◌∙◌, sym}
use toolops.Base.Text.{Text, ◌=ᵗ◌, =ᵗ_iff, =ᵗ_ne_iff}
use toolops.Base.StringMap.{lookup, lookup-insert, lookup-erase}
use toolops.Auth.ApiKey.{ApiKeyInfo, MemoryApiKeyStore, new_memory_api_key_store, add, remove}

pub data Edit : Type 0 where
  added : ApiKeyInfo → Edit
  removed : Text → Edit

abbrev apply : Edit → MemoryApiKeyStore → MemoryApiKeyStore
apply (added info) s = add info s
apply (removed key_hash) s = remove key_hash s

-- A new store after the calls, the last one first.
abbrev pub store_of : List Edit → MemoryApiKeyStore
store_of [] = new_memory_api_key_store
store_of (e ∷ es) = apply e (store_of es)

-- The last call with this hash added the entry.
pub data Registered (key_hash : Text) (info : ApiKeyInfo) : List Edit → Type 0 where
  last : {es : List Edit} → info.key_hash ≡ key_hash → Registered key_hash info (added info ∷ es)
  past_added :
      {es : List Edit} (other : ApiKeyInfo)
      → other.key_hash ≢ key_hash
      → Registered key_hash info es
      → Registered key_hash info (added other ∷ es)
  past_removed :
      {es : List Edit} (other : Text)
      → other ≢ key_hash
      → Registered key_hash info es
      → Registered key_hash info (removed other ∷ es)

pub Registered-lookup :
    (key_hash : Text) (info : ApiKeyInfo) {es : List Edit}
    → Registered key_hash info es
    → lookup key_hash (store_of es).keys ≡ some info
unfolding add remove
Registered-lookup key_hash info (last {es} same) =
    lookup-insert info.key_hash key_hash info (store_of es).keys
    ∙ ground (arith, =ᵗ_iff info.key_hash key_hash, same)
Registered-lookup key_hash info (past_added {es} other away held) =
    lookup-insert other.key_hash key_hash other (store_of es).keys
    ∙ ground
        (arith, (=ᵗ_ne_iff other.key_hash key_hash).1 away, Registered-lookup key_hash info held)
Registered-lookup key_hash info (past_removed {es} other away held) =
    lookup-erase other key_hash (store_of es).keys
    ∙ ground (arith, (=ᵗ_ne_iff other key_hash).1 away, Registered-lookup key_hash info held)

pub lookup-Registered :
    (key_hash : Text) (info : ApiKeyInfo) (es : List Edit)
    → lookup key_hash (store_of es).keys ≡ some info
    → Registered key_hash info es
unfolding add remove new_memory_api_key_store lookup
lookup-Registered key_hash info [] found = absurd (ground (arith, found))
lookup-Registered key_hash info (added other ∷ es) found =
    let inserted = sym (lookup-insert other.key_hash key_hash other (store_of es).keys) ∙ found in
    elim (Bool-cases (other.key_hash =ᵗ key_hash)) [
      | inl same ↦
          subst (λ i. Registered key_hash info (added i ∷ es)) (ground (arith, same, inserted))
            (last (ground (arith, same, inserted, =ᵗ_iff other.key_hash key_hash)))
      | inr e ↦
          past_added other ((=ᵗ_ne_iff other.key_hash key_hash).0 e)
            (lookup-Registered key_hash info es (ground (arith, e, inserted)))
    ]
lookup-Registered key_hash info (removed other ∷ es) found =
    let erased = sym (lookup-erase other key_hash (store_of es).keys) ∙ found in
    elim (Bool-cases (other =ᵗ key_hash)) [
      | inl same ↦ absurd (ground (arith, same, erased))
      | inr e ↦
          past_removed other ((=ᵗ_ne_iff other key_hash).0 e)
            (lookup-Registered key_hash info es (ground (arith, e, erased)))
    ]
