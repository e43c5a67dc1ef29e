-- ===== src/Base/Text.antt =====
-- Go strings are sequences of bytes; the functions of package strings that the code calls.
pub mod Affixes
pub mod Split
use Prim.Native.Char.{code}
use Prim.Native.String.{String}
use toolops.Base.{
  ℕ, ◌≡◌, refl, ◌↔◌, Bool, true, false, ◌&&◌, ◌||◌, List, [], ◌∷◌, ◌++◌, Option, none, some, arith,
  ◌≢◌, ◌==◌, if◌then◌else◌, is_some, Memᴰ, Bool-cases, inl, inr, sym,
}
use mathlib.Core.List.{reverse}

abbrev pub Text : Type 0
Text = List ℕ

-- The bytes of an ASCII literal.
abbrev pub bytes : String → Text
bytes String.[] = []
bytes (String.◌∷◌ c s) = code c ∷ bytes s

infix 50 ◌=ᵗ◌
unfoldable pub ◌=ᵗ◌ : Text → Text → Bool
[] =ᵗ [] = true
[] =ᵗ (_ ∷ _) = false
(_ ∷ _) =ᵗ [] = false
(a ∷ s) =ᵗ (b ∷ t) = a == b && s =ᵗ t

pub =ᵗ_iff : (s t : Text) → ((s =ᵗ t) ≡ true) ↔ (s ≡ t)
unfolding ◌=ᵗ◌
=ᵗ_iff [] [] = ground arith
=ᵗ_iff [] (b ∷ t) = ground arith
=ᵗ_iff (a ∷ s) [] = ground arith
=ᵗ_iff (a ∷ s) (b ∷ t) = ground (arith, =ᵗ_iff s t)

pub =ᵗ_ne_iff : (s t : Text) → ((s =ᵗ t) ≡ false) ↔ (s ≢ t)
=ᵗ_ne_iff s t = (
  λ e same. ground (arith, e, same, =ᵗ_iff s t),
  λ other. elim (Bool-cases (s =ᵗ t)) [
    | inl same ↦ absurd (other ((=ᵗ_iff s t).0 same))
    | inr e ↦ e
  ],
)

-- `strings.CutPrefix`: the rest behind the prefix, if it is there.
abbrev pub cut_prefix : Text → Text → Option Text
cut_prefix [] s = some s
cut_prefix (_ ∷ _) [] = none
cut_prefix (a ∷ p) (b ∷ s) = if a == b then cut_prefix p s else none

abbrev pub has_prefix : Text → Text → Bool
has_prefix p s = is_some (cut_prefix p s)

abbrev pub trim_prefix : Text → Text → Text
trim_prefix p s = elim (cut_prefix p s) [ none ↦ s | some rest ↦ rest ]

abbrev pub reversed : Option Text → Option Text
reversed none = none
reversed (some rest) = some (reverse rest)

-- `strings.CutSuffix`
abbrev pub cut_suffix : Text → Text → Option Text
cut_suffix p s = reversed (cut_prefix (reverse p) (reverse s))

-- `strings.IndexByte(s, b) >= 0`
abbrev pub has_byte : ℕ → Text → Bool
has_byte b [] = false
has_byte b (c ∷ s) = c == b || has_byte b s

abbrev pub push_byte : ℕ → List Text → List Text
push_byte c [] = (c ∷ []) ∷ []
push_byte c (part ∷ parts) = (c ∷ part) ∷ parts

-- `strings.Split(s, sep)` for a separator of one byte.
unfoldable pub split_byte : ℕ → Text → List Text
split_byte sep [] = [] ∷ []
split_byte sep (c ∷ s) =
    let rest = split_byte sep s in if c == sep then [] ∷ rest else push_byte c rest

-- Whether a text is in a list: a loop that compares.
unfoldable pub member : Text → List Text → Bool
member x [] = false
member x (y ∷ ys) = y =ᵗ x || member x ys

pub member-append :
    (x : Text) (xs ys : List Text) → member x (xs ++ ys) ≡ member x xs || member x ys
unfolding member
member-append x [] ys = refl
member-append x (y ∷ xs) ys = ground (arith, member-append x xs ys)

pub member-Memᴰ : (x : Text) (xs : List Text) → member x xs ≡ true → Memᴰ x xs
unfolding member
member-Memᴰ x [] h = cc
member-Memᴰ x (y ∷ ys) h = elim (Bool-cases (y =ᵗ x)) [
  | inl same ↦ Memᴰ.head (sym ((=ᵗ_iff y x).0 same))
  | inr other ↦ Memᴰ.tail (member-Memᴰ x ys (ground arith))
]

pub Memᴰ-member : (x : Text) {xs : List Text} → Memᴰ x xs → member x xs ≡ true
unfolding member
Memᴰ-member x (Memᴰ.head {x = y} e) = ground (arith, =ᵗ_iff y x)
Memᴰ-member x (Memᴰ.tail m) = ground (arith, Memᴰ-member x m)

-- No name twice.
abbrev pub IsUnique : List Text → Type 0
IsUnique [] = Unit
IsUnique (x ∷ xs) = (member x xs ≡ false) × IsUnique xs

-- `strings.Contains(s, sub)`
unfoldable pub contains : Text → Text → Bool
contains sub [] = has_prefix sub []
contains sub (c ∷ s) = has_prefix sub (c ∷ s) || contains sub s
