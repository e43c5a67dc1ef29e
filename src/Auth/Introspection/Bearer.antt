-- ===== src/Auth/Introspection/Bearer.antt =====
-- The bearer token of an Authorization header.
use toolops.Base.{
  ℕ, zero, suc, ◌≡◌, ◌≢◌, refl, sym, ap, ◌∙◌, ◌↔◌, Bool, true, false, not, some, none, Option, [],
  ◌∷◌, ◌++◌, length, length-append, take, drop, ◌≤◌, arith, if◌then◌else◌,
}
use toolops.Base.Text.{Text, bytes, ◌=ᵗ◌, =ᵗ_iff, =ᵗ_ne_iff}
use toolops.Base.Unicode.{Unicode, to_lower, trim_space}
use toolops.Auth.Introspection.{extract_bearer_token, bearer_token}

-- Seven bytes that are "bearer " in lower case, and behind them the token with space around it.
pub record IsBearer (u : Unicode) (header token : Text) : Type 0 where
  pub scheme : Text
  pub rest : Text
  pub split : header ≡ scheme ++ rest
  pub seven : length scheme ≡ 7
  pub named : to_lower u scheme ≡ bytes "bearer "
  pub trimmed : token ≡ trim_space u rest
  pub filled : token ≢ []

take-drop : (n : ℕ) (s : Text) → s ≡ take n s ++ drop n s
take-drop zero s = refl
take-drop (suc n) [] = refl
take-drop (suc n) (c ∷ s) = ap (λ r. c ∷ r) (take-drop n s)

length-take : (n : ℕ) (s : Text) → n ≤ length s → length (take n s) ≡ n
length-take zero s long = refl
length-take (suc n) [] long = absurd (omega (arith, long))
length-take (suc n) (c ∷ s) long = ap (λ k. suc k) (length-take n s (omega (arith, long)))

take-append : (s t : Text) → take (length s) (s ++ t) ≡ s
take-append [] t = refl
take-append (c ∷ s) t = ap (λ r. c ∷ r) (take-append s t)

drop-append : (s t : Text) → drop (length s) (s ++ t) ≡ t
drop-append [] t = refl
drop-append (c ∷ s) t = drop-append s t

abbrev gated : Bool → Bool → Option Text → Option Text
gated short same token = if short then none else if not same then none else token

gated_open :
    (short same : Bool) (s token : Text)
    → gated short same (bearer_token s) ≡ some token
    → (short ≡ false) × (same ≡ true) × ((s =ᵗ []) ≡ false) × (token ≡ s)
gated_open true same s token e = absurd (ground (arith, e))
gated_open false false s token e = absurd (ground (arith, e))
gated_open false true s token e = (refl, refl, ground (arith, e), ground (arith, e))

gated_through :
    (short same : Bool) (s token : Text)
    → short ≡ false
    → same ≡ true
    → (s =ᵗ []) ≡ false
    → token ≡ s
    → gated short same (bearer_token s) ≡ some token
gated_through short same s token long named filled is = ground (arith, long, named, filled, is)

first_seven :
    {u : Unicode} {header token : Text} (is : IsBearer u header token) → take 7 header ≡ is.scheme
first_seven {header} is =
    ap (λ n. take n header) (sym is.seven)
    ∙ ap (λ s. take (length is.scheme) s) is.split
    ∙ take-append is.scheme is.rest

past_seven :
    {u : Unicode} {header token : Text} (is : IsBearer u header token) → drop 7 header ≡ is.rest
past_seven {header} is =
    ap (λ n. drop n header) (sym is.seven)
    ∙ ap (λ s. drop (length is.scheme) s) is.split
    ∙ drop-append is.scheme is.rest

extract_bearer_token-IsBearer :
    (u : Unicode) (header token : Text)
    → extract_bearer_token u header ≡ some token
    → IsBearer u header token
unfolding extract_bearer_token
extract_bearer_token-IsBearer u header token e =
    let (long, same, filled, is) = gated_open _ _ (trim_space u (drop 7 header)) token e in
    record {
      scheme = take 7 header;
      rest = drop 7 header;
      split = take-drop 7 header;
      seven = length-take 7 header (ground (arith, long));
      named = (=ᵗ_iff (to_lower u (take 7 header)) (bytes "bearer ")).0 same;
      trimmed = is;
      filled =
          λ none_left. (=ᵗ_ne_iff (trim_space u (drop 7 header)) []).0 filled (sym is ∙ none_left);
    }

IsBearer-extract_bearer_token :
    (u : Unicode) (header token : Text)
    → IsBearer u header token
    → extract_bearer_token u header ≡ some token
unfolding extract_bearer_token
IsBearer-extract_bearer_token u header token is =
    gated_through _ _ _ token
      (ground (arith, ap length is.split, length-append is.scheme is.rest, is.seven))
      ((=ᵗ_iff (to_lower u (take 7 header)) (bytes "bearer ")).1
        (ap (λ s. to_lower u s) (first_seven is) ∙ is.named))
      ((=ᵗ_ne_iff (trim_space u (drop 7 header)) []).1
        (λ e. is.filled (is.trimmed ∙ ap (λ s. trim_space u s) (sym (past_seven is)) ∙ e)))
      (is.trimmed ∙ ap (λ s. trim_space u s) (sym (past_seven is)))

pub extract_bearer_token_iff :
    (u : Unicode) (header token : Text)
    → (extract_bearer_token u header ≡ some token) ↔ IsBearer u header token
extract_bearer_token_iff u header token =
    (extract_bearer_token-IsBearer u header token, IsBearer-extract_bearer_token u header token)
