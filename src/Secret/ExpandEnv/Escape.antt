-- ===== src/Secret/ExpandEnv/Escape.antt =====
-- Text whose dollar signs are doubled comes out as it was.
use toolops.Base.{
  ◌||◌, drop, ℕ, zero, ◌≡◌, refl, ap, ◌∙◌, Bool, false, [], ◌∷◌, ◌++◌, ◌==◌, if◌then◌else◌,
  Bool-cases, arith, inl, inr,
}
use toolops.Base.Text.{has_prefix, Text}
use toolops.Base.StringMap.{StringMap}
use toolops.Secret.ExpandEnv.{
  replace_from, replace_all, references, missing_of, expand_from, dollar_sentinel, or_missing,
  expand_env_strict,
}

-- The escape that the documentation gives: `$$` for `$`.
abbrev pub escape : Text → Text
escape [] = []
escape (c ∷ s) = let rest = escape s in if c == b'$' then b'$' ∷ b'$' ∷ rest else c ∷ rest

-- The text with the sentinel for each dollar sign.
abbrev hide : Text → Text
hide [] = []
hide (c ∷ s) = let rest = hide s in if c == b'$' then dollar_sentinel ++ rest else c ∷ rest

-- No byte of the text is 0.
abbrev pub has_nul : Text → Bool
has_nul [] = false
has_nul (c ∷ s) = c == 0 || has_nul s

no_prefix : (a c : ℕ) (p s : Text) → (c == a) ≡ false → has_prefix (a ∷ p) (c ∷ s) ≡ false
no_prefix a c p s h = ground arith

replace-escape : (s : Text) → replace_all (b'$' ∷ b'$' ∷ []) dollar_sentinel (escape s) ≡ hide s
unfolding replace_from
replace-escape [] = refl
replace-escape (c ∷ s) = elim (Bool-cases (c == b'$')) [
  | inl dollar ↦ rw dollar (ap (λ rest. dollar_sentinel ++ rest) (replace-escape s))
  | inr other ↦
      rw (other, no_prefix b'$' c (b'$' ∷ []) (escape s) other)
        (ap (λ rest. c ∷ rest) (replace-escape s))
]

replace-hide : (s : Text) → has_nul s ≡ false → replace_all dollar_sentinel (b'$' ∷ []) (hide s) ≡ s
unfolding replace_from
replace-hide [] h = refl
replace-hide (c ∷ s) h =
    let later : has_nul s ≡ false = ground (arith, h) in
    let no_nul : (c == 0) ≡ false = ground (arith, h) in
    elim (Bool-cases (c == b'$')) [
      | inl dollar ↦
          rw dollar (ap (λ rest. b'$' ∷ rest) (replace-hide s later) ∙ ground (arith, dollar))
      | inr other ↦
          rw (other, no_prefix 0 c (drop 1 dollar_sentinel) (hide s) no_nul)
            (ap (λ rest. c ∷ rest) (replace-hide s later))
    ]

references-hide : (s : Text) → references (hide s) ≡ []
unfolding references
references-hide [] = refl
references-hide (c ∷ s) = elim (Bool-cases (c == b'$')) [
  | inl dollar ↦ rw dollar (references-hide s)
  | inr other ↦ rw (other, no_prefix b'$' c (b'{' ∷ []) (hide s) other) (references-hide s)
]

expand-hide : (env : StringMap Text) (s : Text) → expand_from env zero (hide s) ≡ hide s
unfolding expand_from
expand-hide env [] = refl
expand-hide env (c ∷ s) = elim (Bool-cases (c == b'$')) [
  | inl dollar ↦ rw dollar (ap (λ rest. dollar_sentinel ++ rest) (expand-hide env s))
  | inr other ↦ rw (other, other) (ap (λ rest. c ∷ rest) (expand-hide env s))
]

-- In any environment, a text without NUL bytes whose every `$` is written as `$$` expands, without an error,
-- to just that text.
pub expand_env_strict-escape :
    (env : StringMap Text) (s : Text) → has_nul s ≡ false → expand_env_strict env (escape s) ≡ inr s
unfolding expand_env_strict missing_of
expand_env_strict-escape env s h =
    ap (λ hidden. or_missing env (missing_of env (references hidden)) hidden) (replace-escape s)
    ∙ ap (λ keys. or_missing env (missing_of env keys) (hide s)) (references-hide s)
    ∙ ap inr (ap (replace_all dollar_sentinel (b'$' ∷ [])) (expand-hide env s) ∙ replace-hide s h)
