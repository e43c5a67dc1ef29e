-- ===== src/Base/StringMap.antt =====
-- map[string]V as an association list; the order of the list stands for the order of a `range`.
pub mod Unique
use toolops.Base.{◌≡◌, refl, List, [], ◌∷◌, Option, none, some, arith, if◌then◌else◌}
use toolops.Base.Text.{Text, ◌=ᵗ◌, =ᵗ_iff}

abbrev pub StringMap {ℓ} : Type ℓ → Type ℓ
StringMap V = List (Text × V)

module _ {ℓ} {V : Type ℓ} where
  unfoldable pub lookup : Text → StringMap V → Option V
  lookup k [] = none
  lookup k ((j, v) ∷ m) = if j =ᵗ k then some v else lookup k m

  unfoldable pub insert : Text → V → StringMap V → StringMap V
  insert k v [] = (k, v) ∷ []
  insert k v ((j, w) ∷ m) = if j =ᵗ k then (k, v) ∷ m else (j, w) ∷ insert k v m

  -- `delete(m, k)`
  unfoldable pub erase : Text → StringMap V → StringMap V
  erase k [] = []
  erase k ((j, w) ∷ m) = if j =ᵗ k then erase k m else (j, w) ∷ erase k m

  pub lookup-insert :
      (k j : Text) (v : V) (m : StringMap V)
      → lookup j (insert k v m) ≡ (if k =ᵗ j then some v else lookup j m)
  unfolding lookup insert
  lookup-insert k j v [] = refl
  lookup-insert k j v ((i, w) ∷ m) =
      ground (arith, =ᵗ_iff k j, =ᵗ_iff i k, =ᵗ_iff i j, lookup-insert k j v m)

  pub lookup-erase :
      (k j : Text) (m : StringMap V) → lookup j (erase k m) ≡ (if k =ᵗ j then none else lookup j m)
  unfolding lookup erase
  lookup-erase k j [] = ground arith
  lookup-erase k j ((i, w) ∷ m) =
      ground (arith, =ᵗ_iff k j, =ᵗ_iff i k, =ᵗ_iff i j, lookup-erase k j m)
