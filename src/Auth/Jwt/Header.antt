-- ===== src/Auth/Jwt/Header.antt =====
-- The header of a request that carries a token: a prefix, with the token behind it.
use toolops.Base.{
  ℕ, ◌≡◌, ◌≢◌, refl, sym, ap, ◌∙◌, ◌++◌, some, [], ◌∷◌, false, inl, inr, Option-cases, arith,
  length, length-append,
}
use toolops.Base.Text.{Text, ◌=ᵗ◌, =ᵗ_iff, =ᵗ_ne_iff, cut_prefix, trim_prefix}
use toolops.Base.Text.Affixes.{cut_prefix-append, cut_prefix_found}

longer : (a : ℕ) (p s : Text) → s ≢ (a ∷ p) ++ s
longer a p s = λ e. omega (arith, ap length e, length-append (a ∷ p) s)

trimmed : (p h rest : Text) → cut_prefix p h ≡ some rest → trim_prefix p h ≡ rest
trimmed p h rest found = ground (arith, found)

-- Text behind a prefix that is not empty passes the two tests of the header.
pub prefixed-passes :
    (p h rest : Text)
    → p ≢ []
    → h ≡ p ++ rest
    → ((h =ᵗ []) ≡ false) × ((trim_prefix p h =ᵗ h) ≡ false) × (trim_prefix p h ≡ rest)
prefixed-passes [] h rest some_prefix is = absurd (some_prefix refl)
prefixed-passes (a ∷ p) h rest some_prefix is =
    let cut =
      trimmed (a ∷ p) h rest (ap (λ t. cut_prefix (a ∷ p) t) is ∙ cut_prefix-append (a ∷ p) rest) in
    (
      (=ᵗ_ne_iff h []).1 (λ e. absurd (ground (arith, is, e))),
      (=ᵗ_ne_iff (trim_prefix (a ∷ p) h) h).1 (λ e. longer a p rest (sym cut ∙ e ∙ is)),
      cut,
    )

-- What passes the tests is a text behind such a prefix.
pub passes-prefixed :
    (p h : Text) → (trim_prefix p h =ᵗ h) ≡ false → (p ≢ []) × (h ≡ p ++ trim_prefix p h)
passes-prefixed [] h bare = absurd (ground (arith, bare, (=ᵗ_iff h h).1 refl))
passes-prefixed (a ∷ p) h bare = elim (Option-cases (cut_prefix (a ∷ p) h)) [
  | inl missing ↦ absurd (ground (arith, bare, missing, (=ᵗ_iff h h).1 refl))
  | inr (rest, found) ↦ (
    λ e. cc,
    cut_prefix_found (a ∷ p) h rest found
        ∙ ap (λ t. (a ∷ p) ++ t) (sym (trimmed (a ∷ p) h rest found)),
  )
]
