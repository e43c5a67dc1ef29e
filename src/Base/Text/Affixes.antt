-- ===== src/Base/Text/Affixes.antt =====
-- Prefixes and suffixes: what CutPrefix and CutSuffix cut.
use toolops.Base.{
  ◌≡◌, refl, ap, sym, ◌∙◌, true, ◌==◌, Option, none, some, is_some, [], ◌∷◌, ◌++◌, ◌↔◌, Bool-cases,
  Option-cases, inl, inr, arith,
}
use mathlib.Core.List.{reverse, reverse-append, reverse-reverse}
use toolops.Base.Text.{Text, cut_prefix, has_prefix, cut_suffix, reversed}

pub cut_prefix-append : (p s : Text) → cut_prefix p (p ++ s) ≡ some s
cut_prefix-append [] s = refl
cut_prefix-append (a ∷ p) s = ground (arith, cut_prefix-append p s)

pub cut_prefix_found : (p s rest : Text) → cut_prefix p s ≡ some rest → s ≡ p ++ rest
cut_prefix_found [] s rest h = ground (arith, h)
cut_prefix_found (a ∷ p) [] rest h = cc
cut_prefix_found (a ∷ p) (b ∷ s) rest h = elim (Bool-cases (a == b)) [
  | inl same ↦ ground (arith, cut_prefix_found p s rest, h, same)
  | inr other ↦ ground (arith, h, other)
]

pub has_prefix_iff : (p s : Text) → (has_prefix p s ≡ true) ↔ ((rest : Text) × (s ≡ p ++ rest))
has_prefix_iff p s = (
  λ h. elim (Option-cases (cut_prefix p s)) [
    | inl missing ↦ absurd (ground (arith, missing, h))
    | inr (rest, found) ↦ (rest, cut_prefix_found p s rest found)
  ],
  λ (rest, e). ap (λ t. has_prefix p t) e ∙ ap is_some (cut_prefix-append p rest),
)

pub cut_suffix-append : (p s : Text) → cut_suffix p (s ++ p) ≡ some s
cut_suffix-append p s =
    ap (λ t. reversed (cut_prefix (reverse p) t)) (reverse-append s p)
    ∙ ap reversed (cut_prefix-append (reverse p) (reverse s))
    ∙ ap some (reverse-reverse s)

reversed_found :
    (p s rest : Text) (cut : Option Text)
    → cut_prefix (reverse p) (reverse s) ≡ cut
    → reversed cut ≡ some rest
    → s ≡ rest ++ p
reversed_found p s rest none is h = cc
reversed_found p s rest (some t) is h =
    sym (reverse-reverse s)
    ∙ ap (λ x. reverse x) (cut_prefix_found (reverse p) (reverse s) t is)
    ∙ reverse-append (reverse p) t
    ∙ ap (λ x. reverse t ++ x) (reverse-reverse p)
    ∙ ap (λ x. x ++ p) (ground (arith, h))

pub cut_suffix_found : (p s rest : Text) → cut_suffix p s ≡ some rest → s ≡ rest ++ p
cut_suffix_found p s rest h = reversed_found p s rest _ refl h
