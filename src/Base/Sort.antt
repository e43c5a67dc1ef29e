-- ===== src/Base/Sort.antt =====
-- sort.Strings, as insertion sort by the order of bytes.
use toolops.Base.{
  ◌≡◌, refl, Bool, true, false, ◌&&◌, ◌||◌, not, List, [], ◌∷◌, All, arith, ltb, ◌==◌,
  if◌then◌else◌, Bool-cases, inl, inr,
}
use toolops.Base.Text.{Text, ◌=ᵗ◌, member}

-- The order of strings.
unfoldable pub before : Text → Text → Bool
before _ [] = false
before [] (b ∷ t) = true
before (a ∷ s) (b ∷ t) = ltb a b || a == b && before s t

pub before_total : (s t : Text) → (s =ᵗ t) ≡ false → before s t ≡ not (before t s)
unfolding before ◌=ᵗ◌
before_total [] [] h = ground arith
before_total [] (b ∷ t) h = ground arith
before_total (a ∷ s) [] h = ground arith
before_total (a ∷ s) (b ∷ t) h = ground (arith, before_total s t)

pub before_trans : (s t u : Text) → before s t ≡ true → before t u ≡ true → before s u ≡ true
unfolding before
before_trans s t [] h k = ground arith
before_trans s [] (c ∷ u) h k = ground arith
before_trans [] (b ∷ t) (c ∷ u) h k = refl
before_trans (a ∷ s) (b ∷ t) (c ∷ u) h k = ground (arith, before_trans s t u)

abbrev pub insert_string : Text → List Text → List Text
insert_string s [] = s ∷ []
insert_string s (t ∷ ts) = if before s t then s ∷ t ∷ ts else t ∷ insert_string s ts

unfoldable pub sort_strings : List Text → List Text
sort_strings [] = []
sort_strings (s ∷ ss) = insert_string s (sort_strings ss)

-- No text stands before one that precedes it.
abbrev pub IsSorted : List Text → Type 0
IsSorted [] = Unit
IsSorted (s ∷ ss) = All (λ t. before t s ≡ false) ss × IsSorted ss

before_irrefl : (s : Text) → before s s ≡ false
unfolding before
before_irrefl [] = refl
before_irrefl (a ∷ s) = ground (arith, before_irrefl s)

before_asym : (s t : Text) → before s t ≡ true → before t s ≡ false
before_asym s t h = elim (Bool-cases (before t s)) [
  | inr not_back ↦ not_back
  | inl back ↦ absurd (ground (arith, before_trans s t s h back, before_irrefl s))
]

All-insert_string :
    (u s : Text) (ts : List Text)
    → before s u ≡ false
    → All (λ t. before t u ≡ false) ts
    → All (λ t. before t u ≡ false) (insert_string s ts)
All-insert_string u s [] h all = (h, tt)
All-insert_string u s (t ∷ ts) h (first, rest) = elim (Bool-cases (before s t)) [
  | inl yes_before ↦ rw yes_before (h, (first, rest))
  | inr no_before ↦ rw no_before (first, All-insert_string u s ts h rest)
]

All-before :
    (s t : Text) (ts : List Text)
    → before s t ≡ true
    → All (λ x. before x t ≡ false) ts
    → All (λ x. before x s ≡ false) ts
All-before s t [] h all = tt
All-before s t (x ∷ ts) h (first, rest) = (
  elim (Bool-cases (before x s)) [
    | inr fine ↦ fine
    | inl bad ↦ absurd (ground (arith, before_trans x s t bad h, first))
  ],
  All-before s t ts h rest,
)

insert_string-IsSorted : (s : Text) (ts : List Text) → IsSorted ts → IsSorted (insert_string s ts)
insert_string-IsSorted s [] sorted = (tt, tt)
insert_string-IsSorted s (t ∷ ts) (first, sorted) = elim (Bool-cases (before s t)) [
  | inl h ↦ rw h ((before_asym s t h, All-before s t ts h first), (first, sorted))
  | inr h ↦ rw h (All-insert_string t s ts h first, insert_string-IsSorted s ts sorted)
]

pub sort_strings-IsSorted : (ss : List Text) → IsSorted (sort_strings ss)
unfolding sort_strings
sort_strings-IsSorted [] = tt
sort_strings-IsSorted (s ∷ ss) = insert_string-IsSorted s _ (sort_strings-IsSorted ss)

member-insert_string :
    (x s : Text) (ts : List Text) → member x (insert_string s ts) ≡ (s =ᵗ x) || member x ts
unfolding member
member-insert_string x s [] = refl
member-insert_string x s (t ∷ ts) = ground (arith, member-insert_string x s ts)

pub member-sort_strings : (x : Text) (ss : List Text) → member x (sort_strings ss) ≡ member x ss
unfolding member sort_strings
member-sort_strings x [] = refl
member-sort_strings x (s ∷ ss) =
    ground (arith, member-insert_string x s (sort_strings ss), member-sort_strings x ss)
