-- ===== src/Base/StringMap/Unique.antt =====
-- Maps in which no key occurs twice: their entries are what lookup finds.
use toolops.Base.{
  ◌≡◌, refl, ◌∙◌, Bool, true, false, ◌||◌, some, is_some, [], ◌∷◌, Memᴰ, Bool-cases, inl, inr,
  arith, if◌then◌else◌, ap, map,
}
use toolops.Base.Text.{Text, ◌=ᵗ◌, =ᵗ_iff, member}
use toolops.Base.StringMap.{StringMap, lookup, insert, lookup-insert}

abbrev pub has_key {ℓ} : {V : Type ℓ} → Text → StringMap V → Bool
has_key n m = is_some (lookup n m)

pub member-keys {ℓ} :
    {V : Type ℓ} (n : Text) (m : StringMap V) → member n (map (λ e. e.0) m) ≡ has_key n m
unfolding member lookup
member-keys n [] = refl
member-keys n ((k, v) ∷ m) = ground (arith, member-keys n m)

pub has_key-insert {ℓ} :
    {V : Type ℓ} (n k : Text) (v : V) (m : StringMap V)
    → has_key n (insert k v m) ≡ (k =ᵗ n) || has_key n m
has_key-insert n k v m = ground (arith, lookup-insert k n v m)

module _ {V : Type 0} where
  abbrev pub Unique : StringMap V → Type 0
  Unique [] = Unit
  Unique ((k, v) ∷ m) = (has_key k m ≡ false) × Unique m

  cons_unless :
      (k j : Text) (v w : V) (m : StringMap V) (b : Bool)
      → (k =ᵗ j) ≡ b
      → (j =ᵗ k) ≡ b
      → Unique ((j, w) ∷ m)
      → Unique (insert k v m)
      → Unique (if b then (k, v) ∷ m else (j, w) ∷ insert k v m)
  cons_unless k j v w m true same same' (fresh, unique) rest =
      (ground (arith, =ᵗ_iff k j, fresh), unique)
  cons_unless k j v w m false same same' (fresh, unique) rest =
      (has_key-insert j k v m ∙ ground (arith, same, fresh), rest)

  pub insert-Unique : (k : Text) (v : V) (m : StringMap V) → Unique m → Unique (insert k v m)
  unfolding insert lookup
  insert-Unique k v [] unique = (refl, tt)
  insert-Unique k v ((j, w) ∷ m) unique =
      cons_unless k j v w m (j =ᵗ k) (ground (arith, =ᵗ_iff j k, =ᵗ_iff k j)) refl unique
        (insert-Unique k v m unique.1)

  pub Memᴰ-has_key : {e : Text × V} {m : StringMap V} → Memᴰ e m → has_key e.0 m ≡ true
  unfolding lookup
  Memᴰ-has_key {e} (Memᴰ.head {x = (j, w)} same) =
      ground (arith, =ᵗ_iff j e.0, ap (λ (p : Text × V). p.0) same)
  Memᴰ-has_key (Memᴰ.tail listed) = ground (arith, Memᴰ-has_key listed)

  -- What stands under a key is what lookup finds.
  pub Memᴰ-lookup : {e : Text × V} (m : StringMap V) → Unique m → Memᴰ e m → lookup e.0 m ≡ some e.1
  unfolding lookup
  Memᴰ-lookup [] unique listed = elim listed [ ]
  Memᴰ-lookup {e} ((j, w) ∷ m) unique (Memᴰ.head same) =
      ground (arith, =ᵗ_iff j e.0, ap (λ (p : Text × V). p.0) same, ap (λ (p : Text × V). p.1) same)
  Memᴰ-lookup {e} ((j, w) ∷ m) (fresh, unique) (Memᴰ.tail listed) =
      ground (arith, =ᵗ_iff j e.0, fresh, Memᴰ-has_key listed, Memᴰ-lookup m unique listed)

  pub lookup-Memᴰ : (k : Text) (v : V) (m : StringMap V) → lookup k m ≡ some v → Memᴰ (k, v) m
  unfolding lookup
  lookup-Memᴰ k v [] found = absurd (ground (arith, found))
  lookup-Memᴰ k v ((j, w) ∷ m) found = elim (Bool-cases (j =ᵗ k)) [
    | inl same ↦ Memᴰ.head (ground (arith, same, found, =ᵗ_iff j k))
    | inr other ↦ Memᴰ.tail (lookup-Memᴰ k v m (ground (arith, other, found)))
  ]
