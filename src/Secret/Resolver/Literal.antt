-- ===== src/Secret/Resolver/Literal.antt =====
-- Text that is escaped and holds no reference.
use toolops.Base.{
  ℕ, ◌≡◌, refl, ap, ◌∙◌, Bool, false, ◌||◌, Option, none, some, [], ◌∷◌, inl, inr, arith, is_some,
  Option-cases,
}
use toolops.Base.Text.{Text, contains, has_prefix, cut_prefix}
use toolops.Base.StringMap.{StringMap}
use toolops.Base.Unicode.{Unicode}
use toolops.Secret.ExpandEnv.Escape.{escape, has_nul, expand_env_strict-escape}
use toolops.Secret.Ref.{ref_prefix, split_ref, match_at, next_piece, parse_secret_ref, pieces_from}
use toolops.Secret.Resolver.{
  Resolver, put_byte, resolve_pieces, resolve_inline, resolve_parsed, resolve_expanded,
  resolve_value,
}

not_prefix : (s : Text) → contains ref_prefix s ≡ false → cut_prefix ref_prefix s ≡ none
unfolding contains
not_prefix [] h = refl
not_prefix (c ∷ s) h = elim (Option-cases (cut_prefix ref_prefix (c ∷ s))) [
  | inl missing ↦ missing
  | inr (rest, found) ↦ absurd (ground (arith, h, ap is_some found))
]

or_false : (a b : Bool) → (a || b) ≡ false → b ≡ false
or_false a b h = ground (arith, h)

contains-tail :
    (sub : Text) (c : ℕ) (s : Text) → contains sub (c ∷ s) ≡ false → contains sub s ≡ false
unfolding contains
contains-tail sub c s h = or_false (has_prefix sub (c ∷ s)) (contains sub s) h

resolve_inline-contains :
    {W : Type 0} (u : Unicode) (r : Resolver W) (s : Text) (w : W)
    → contains ref_prefix s ≡ false
    → resolve_inline u r s w ≡ (inr s, w)
unfolding resolve_inline resolve_pieces pieces_from
resolve_inline-contains u r [] w h = refl
resolve_inline-contains u r (c ∷ s) w h =
    ap (λ m. resolve_pieces u r (next_piece c (match_at m) (λ skip. pieces_from skip s)) w)
      (not_prefix (c ∷ s) h)
    ∙ ap (put_byte c) (resolve_inline-contains u r s w (contains-tail ref_prefix c s h))

-- A NUL-free text without `secretref:` whose every `$` is doubled resolves to just that text, in any
-- environment and with any providers, or none, none of which is called.
pub resolve_value-escape :
    {W : Type 0} (u : Unicode) (env : StringMap Text) (r : Option (Resolver W)) (s : Text) (w : W)
    → has_nul s ≡ false
    → contains ref_prefix s ≡ false
    → resolve_value u env r (escape s) w ≡ (inr s, w)
unfolding resolve_value parse_secret_ref
resolve_value-escape u env none s w h k =
    ap (λ e. resolve_expanded u none e w) (expand_env_strict-escape env s h)
resolve_value-escape u env (some r) s w h k =
    ap (λ e. resolve_expanded u (some r) e w) (expand_env_strict-escape env s h)
    ∙ ap (λ m. resolve_parsed u r s (split_ref m) w) (not_prefix s k)
    ∙ resolve_inline-contains u r s w k
