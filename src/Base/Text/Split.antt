-- ===== src/Base/Text/Split.antt =====
-- strings.Split at a separator of one byte: the parts hold no separator, and joined they are the text.
use toolops.Base.{
  ℕ, ◌≡◌, ◌≢◌, refl, ap, ◌∙◌, false, ◌==◌, List, [], ◌∷◌, ◌++◌, Bool-cases, inl, inr, arith, All,
}
use toolops.Base.Text.{Text, has_byte, split_byte, push_byte}

-- `strings.Join(parts, sep)`
unfoldable pub join_byte : ℕ → List Text → Text
join_byte sep [] = []
join_byte sep (part ∷ []) = part
join_byte sep (part ∷ next ∷ parts) = part ++ sep ∷ join_byte sep (next ∷ parts)

join_byte-push_byte :
    (sep c : ℕ) (parts : List Text)
    → parts ≢ []
    → join_byte sep (push_byte c parts) ≡ c ∷ join_byte sep parts
unfolding join_byte
join_byte-push_byte sep c [] some_part = absurd (some_part refl)
join_byte-push_byte sep c (part ∷ []) some_part = refl
join_byte-push_byte sep c (part ∷ next ∷ parts) some_part = refl

pushed_inhabited : (c : ℕ) (parts : List Text) → push_byte c parts ≢ []
pushed_inhabited c [] e = cc
pushed_inhabited c (part ∷ parts) e = cc

pub split_byte_inhabited : (sep : ℕ) (s : Text) → split_byte sep s ≢ []
unfolding split_byte
split_byte_inhabited sep [] = λ e. cc
split_byte_inhabited sep (c ∷ s) = elim (Bool-cases (c == sep)) [
  | inl same ↦ rw same (λ e. cc)
  | inr other ↦ rw other (pushed_inhabited c (split_byte sep s))
]

join_byte-cons :
    (sep : ℕ) (part : Text) (parts : List Text)
    → parts ≢ []
    → join_byte sep (part ∷ parts) ≡ part ++ sep ∷ join_byte sep parts
unfolding join_byte
join_byte-cons sep part [] some_part = absurd (some_part refl)
join_byte-cons sep part (next ∷ parts) some_part = refl

-- Joined, the parts are the text.
pub join_byte-split_byte : (sep : ℕ) (s : Text) → join_byte sep (split_byte sep s) ≡ s
unfolding split_byte join_byte
join_byte-split_byte sep [] = refl
join_byte-split_byte sep (c ∷ s) = elim (Bool-cases (c == sep)) [
  | inl same ↦ rw same (
      join_byte-cons sep [] (split_byte sep s) (split_byte_inhabited sep s)
      ∙ ground (arith, same, join_byte-split_byte sep s))
  | inr other ↦ rw other (
      join_byte-push_byte sep c (split_byte sep s) (split_byte_inhabited sep s)
      ∙ ap (λ rest. c ∷ rest) (join_byte-split_byte sep s))
]

push_byte_lacks :
    (sep c : ℕ) (parts : List Text)
    → (c == sep) ≡ false
    → All (λ part. has_byte sep part ≡ false) parts
    → All (λ part. has_byte sep part ≡ false) (push_byte c parts)
push_byte_lacks sep c [] other lacks = (ground (arith, other), tt)
push_byte_lacks sep c (part ∷ parts) other (first, rest) = (ground (arith, other, first), rest)

-- No part holds the separator.
pub split_byte_lacks :
    (sep : ℕ) (s : Text) → All (λ part. has_byte sep part ≡ false) (split_byte sep s)
unfolding split_byte
split_byte_lacks sep [] = (refl, tt)
split_byte_lacks sep (c ∷ s) = elim (Bool-cases (c == sep)) [
  | inl same ↦ rw same (refl, split_byte_lacks sep s)
  | inr other ↦ rw other (push_byte_lacks sep c (split_byte sep s) other (split_byte_lacks sep s))
]

pub split_byte-append :
    (sep : ℕ) (part s : Text)
    → has_byte sep part ≡ false
    → split_byte sep (part ++ sep ∷ s) ≡ part ∷ split_byte sep s
unfolding split_byte
split_byte-append sep [] s lacks = ground arith
split_byte-append sep (c ∷ part) s lacks =
    let other : (c == sep) ≡ false = ground (arith, lacks) in
    rw other (ap (push_byte c) (split_byte-append sep part s (ground (arith, lacks))))

pub split_byte_single : (sep : ℕ) (s : Text) → has_byte sep s ≡ false → split_byte sep s ≡ s ∷ []
unfolding split_byte
split_byte_single sep [] lacks = refl
split_byte_single sep (c ∷ s) lacks =
    let other : (c == sep) ≡ false = ground (arith, lacks) in
    rw other (ap (push_byte c) (split_byte_single sep s (ground (arith, lacks))))

-- Parts without the separator are what the text that they make splits into.
pub split_byte-join_byte :
    (sep : ℕ) (part : Text) (parts : List Text)
    → All (λ p. has_byte sep p ≡ false) (part ∷ parts)
    → split_byte sep (join_byte sep (part ∷ parts)) ≡ part ∷ parts
unfolding join_byte
split_byte-join_byte sep part [] (lacks, rest) = split_byte_single sep part lacks
split_byte-join_byte sep part (next ∷ parts) (lacks, rest) =
    split_byte-append sep part (join_byte sep (next ∷ parts)) lacks
    ∙ ap (λ ps. part ∷ ps) (split_byte-join_byte sep next parts rest)
