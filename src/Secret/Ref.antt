-- ===== src/Secret/Ref.antt =====
-- secret/resolver.go: references to secrets, `secretref:<provider>:<ref>`, as a whole value and inside of a
-- text.
pub mod Scanning
use toolops.Base.{
  ℕ, zero, suc, ◌+◌, ◌≡◌, refl, sym, ap, ◌∙◌, Bool, true, false, ◌&&◌, ◌||◌, not, Option, none,
  some, List, [], ◌∷◌, ◌++◌, length, leb, ◌==◌, if◌then◌else◌, is_some, is_empty, drop, arith,
  Bool-cases, inl, inr,
}
use toolops.Base.Text.{Text, bytes, ◌=ᵗ◌, has_prefix, cut_prefix}

abbrev pub ref_prefix : Text
ref_prefix = bytes "secretref:"

-- What stands before and behind the first `sep`: strings.SplitN(s, sep, 2), if it has two parts.
abbrev pub put_before : ℕ → Option (Text × Text) → Option (Text × Text)
put_before c none = none
put_before c (some (front, back)) = some (c ∷ front, back)

unfoldable pub cut_byte : ℕ → Text → Option (Text × Text)
cut_byte sep [] = none
cut_byte sep (c ∷ s) =
    let rest = cut_byte sep s in if c == sep then some ([], s) else put_before c rest

abbrev pub both_given : Option (Text × Text) → Option (Text × Text)
both_given none = none
both_given (some (provider, ref)) =
    if is_empty provider || is_empty ref then none else some (provider, ref)

abbrev pub split_ref : Option Text → Option (Text × Text)
split_ref none = none
split_ref (some rest) = both_given (cut_byte b':' rest)

unfoldable pub parse_secret_ref : Text → Option (Text × Text)
unfolding cut_byte
parse_secret_ref value = split_ref (cut_prefix ref_prefix value)

-- `\s` of package regexp.
abbrev pub is_re_space : ℕ → Bool
is_re_space c = c == 9 || c == 10 || c == 12 || c == 13 || c == 32

abbrev pub run_of : (ℕ → Bool) → Text → Text
run_of p [] = []
run_of p (c ∷ s) = if p c then c ∷ run_of p s else []

abbrev pub provider_of : Text → Text
provider_of s = run_of (λ c. not (c == b':') && not (is_re_space c)) s

abbrev pub secret_of : Text → Text
secret_of s = run_of (λ c. not (is_re_space c)) s

abbrev pub behind_colon : Text → Option Text → Option (Text × Text)
behind_colon provider none = none
behind_colon provider (some rest) = both_given (some (provider, secret_of rest))

-- The match of `secretref:([^:\s]+):([^\s]+)` at the start of a text, its groups.
unfoldable pub match_at : Option Text → Option (Text × Text)
match_at none = none
match_at (some rest) =
    let provider = provider_of rest in
    behind_colon provider (cut_prefix (b':' ∷ []) (drop (length provider) rest))

pub data Piece : Type 0 where
  byte : ℕ → Piece
  reference : Text → Text → Piece

-- The text of a reference.
abbrev pub ref_text : Text → Text → Text
ref_text provider ref = ref_prefix ++ provider ++ b':' ∷ ref

-- The piece that starts with a byte, and the pieces behind it.
abbrev pub next_piece : ℕ → Option (Text × Text) → (ℕ → List Piece) → List Piece
next_piece c none later = byte c ∷ later zero
next_piece c (some (provider, ref)) later =
    reference provider ref ∷ later (length (drop 1 (ref_text provider ref)))

-- FindAllStringSubmatchIndex: the matches from left to right, and the bytes between them; the first argument
-- is how many bytes of the last match are still to be passed over.
unfoldable pub pieces_from : ℕ → Text → List Piece
unfolding match_at
pieces_from skip [] = []
pieces_from (suc skip) (c ∷ s) = pieces_from skip s
pieces_from zero (c ∷ s) =
    next_piece c (match_at (cut_prefix ref_prefix (c ∷ s))) (λ skip. pieces_from skip s)

abbrev pub pieces_of : Text → List Piece
pieces_of s = pieces_from zero s
