-- ===== src/Secret/Ref/Scanning.antt =====
-- What the two readings of references find.
use toolops.Base.{
  ++-assoc, ℕ, zero, suc, ◌≡◌, refl, sym, ap, ◌∙◌, Bool, false, ◌&&◌, not, Option, none, some, List,
  [], ◌∷◌, ◌++◌, length, ◌==◌, is_empty, drop, arith, Bool-cases, Option-cases, inl, inr,
}
use toolops.Base.Text.{Text, cut_prefix, has_byte}
use toolops.Base.Text.Affixes.{cut_prefix-append, cut_prefix_found}
use toolops.Secret.Ref.{
  is_re_space, next_piece, behind_colon, ref_prefix, put_before, cut_byte, both_given, split_ref,
  parse_secret_ref, run_of, provider_of, secret_of, match_at, Piece, byte, reference, ref_text,
  pieces_from, pieces_of,
}

cut_byte-append :
    (sep : ℕ) (front back : Text)
    → has_byte sep front ≡ false
    → cut_byte sep (front ++ sep ∷ back) ≡ some (front, back)
unfolding cut_byte
cut_byte-append sep [] back h = ground arith
cut_byte-append sep (c ∷ front) back h = elim (Bool-cases (c == sep)) [
  | inl same ↦ absurd (ground (arith, h, same))
  | inr other ↦ rw other (ap (put_before c) (cut_byte-append sep front back (ground (arith, h))))
]

-- A reference that is written out parses to its provider, which has no colon, and its ref, which may have
-- any bytes, also spaces and other references.
pub parse_secret_ref-ref_text :
    (provider ref : Text)
    → has_byte b':' provider ≡ false
    → is_empty provider ≡ false
    → is_empty ref ≡ false
    → parse_secret_ref (ref_text provider ref) ≡ some (provider, ref)
unfolding parse_secret_ref
parse_secret_ref-ref_text provider ref h p r =
    ap split_ref (cut_prefix-append ref_prefix (provider ++ b':' ∷ ref))
    ∙ ap both_given (cut_byte-append b':' provider ref h)
    ∙ ground (arith, p, r)

run_of-drop : (p : ℕ → Bool) (s : Text) → run_of p s ++ drop (length (run_of p s)) s ≡ s
run_of-drop p [] = refl
run_of-drop p (c ∷ s) = elim (Bool-cases (p c)) [
  | inl passed ↦ rw passed (ap (λ rest. c ∷ rest) (run_of-drop p s))
  | inr stopped ↦ rw stopped refl
]

drop-append : (xs ys : Text) → drop (length xs) (xs ++ ys) ≡ ys
drop-append [] ys = refl
drop-append (x ∷ xs) ys = drop-append xs ys

-- A match is the start of the text.
behind_colon_found :
    (provider p r : Text) (later : Option Text)
    → behind_colon provider later ≡ some (p, r)
    → (rest : Text) × (later ≡ some rest) × (provider ≡ p) × (secret_of rest ≡ r)
behind_colon_found provider p r none h = cc
behind_colon_found provider p r (some rest) h = (rest, refl, ground (arith, h), ground (arith, h))

provider_of-drop : (s : Text) → s ≡ provider_of s ++ drop (length (provider_of s)) s
provider_of-drop s = sym (run_of-drop (λ c. not (c == b':') && not (is_re_space c)) s)

secret_of-drop : (s : Text) → s ≡ secret_of s ++ drop (length (secret_of s)) s
secret_of-drop s = sym (run_of-drop (λ c. not (is_re_space c)) s)

match_in :
    (body p r : Text)
    → match_at (some body) ≡ some (p, r)
    → (rest : Text) × (body ≡ p ++ b':' ∷ r ++ rest)
unfolding match_at
match_in body p r h =
    let provider = provider_of body in
    let behind = drop (length provider) body in
    let (rest, colon, same, secret) =
      behind_colon_found provider p r (cut_prefix (b':' ∷ []) behind) h in
    let tail = drop (length (secret_of rest)) rest in
    (
      tail,
      provider_of-drop body
          ∙ ap (λ later. provider ++ later) (cut_prefix_found (b':' ∷ []) behind rest colon)
          ∙ ap (λ later. provider ++ b':' ∷ later) (secret_of-drop rest)
          ∙ sym (++-assoc provider (b':' ∷ secret_of rest) tail)
          ∙ ap (λ front. front ++ b':' ∷ secret_of rest ++ tail) same
          ∙ ap (λ ref. p ++ b':' ∷ ref ++ tail) secret,
    )

match_at_found :
    (s p r : Text)
    → match_at (cut_prefix ref_prefix s) ≡ some (p, r)
    → (rest : Text) × (s ≡ ref_text p r ++ rest)
unfolding match_at
match_at_found s p r h = elim (Option-cases (cut_prefix ref_prefix s)) [
  | inl missing ↦ absurd (ground (arith, sym (ap match_at missing) ∙ h))
  | inr (body, found) ↦
      let (rest, whole) = match_in body p r (sym (ap match_at found) ∙ h) in
      (rest, cut_prefix_found ref_prefix s body found ∙ ap (λ later. ref_prefix ++ later) whole)
]

abbrev pub render : List Piece → Text
render [] = []
render (byte c ∷ ps) = c ∷ render ps
render (reference provider ref ∷ ps) = ref_text provider ref ++ render ps

render-next_piece :
    (c : ℕ) (s : Text) (m : Option (Text × Text)) (later : ℕ → List Piece)
    → ((p r : Text) → m ≡ some (p, r) → (rest : Text) × (c ∷ s ≡ ref_text p r ++ rest))
    → ((skip : ℕ) → render (later skip) ≡ drop skip s)
    → render (next_piece c m later) ≡ c ∷ s
render-next_piece c s none later found renders = ap (λ rest. c ∷ rest) (renders zero)
render-next_piece c s (some (p, r)) later found renders =
    let (rest, whole) = found p r refl in
    ap (λ t. ref_text p r ++ t)
      (renders (length (drop 1 (ref_text p r)))
        ∙ ap (λ t. drop (length (ref_text p r)) t) whole
        ∙ drop-append (ref_text p r) rest)
    ∙ sym whole

render-pieces_from : (skip : ℕ) (s : Text) → render (pieces_from skip s) ≡ drop skip s
unfolding pieces_from
render-pieces_from zero [] = refl
render-pieces_from (suc skip) [] = refl
render-pieces_from (suc skip) (c ∷ s) = render-pieces_from skip s
render-pieces_from zero (c ∷ s) =
    render-next_piece c s (match_at (cut_prefix ref_prefix (c ∷ s))) (λ skip. pieces_from skip s)
      (match_at_found (c ∷ s)) (λ skip. render-pieces_from skip s)

-- The matches that are replaced, and the bytes between them that stay, make up the text: no byte is lost,
-- doubled or moved.
pub render-pieces_of : (s : Text) → render (pieces_of s) ≡ s
render-pieces_of s = render-pieces_from zero s
