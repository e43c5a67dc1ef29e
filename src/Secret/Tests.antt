-- ===== src/Secret/Tests.antt =====
-- The theorems of package secret at concrete inputs.
use toolops.Base.{suc, ℕ, ◌≡◌, refl, true, some, [], ◌∷◌, inl, inr}
use toolops.Base.Text.{member, Text, bytes, contains, ◌=ᵗ◌}
use toolops.Base.Sort.{sort_strings, before}
use toolops.Base.StringMap.{lookup, StringMap}
use toolops.Base.Unicode.{skip_spaces, Unicode, trim_space}
use toolops.Secret.ExpandEnv.{
  get_shell_name, expand_from, missing_of, references, replace_from, expand_env_strict,
}
use toolops.Secret.ExpandEnv.Escape.{escape}
use toolops.Secret.Ref.{cut_byte, match_at, pieces_from, ref_text, parse_secret_ref}
use toolops.Secret.Ref.Scanning.{parse_secret_ref-ref_text}
use toolops.Secret.Resolver.{
  ResolveErr, resolve_single, resolve_pieces, resolve_inline, Provider, Resolver, resolve_value,
}
use toolops.Secret.Resolver.Literal.{resolve_value-escape}

abbrev ascii : Unicode
ascii = record { lower = λ s. s; trim = λ s. s; trim_right = λ s. s }

abbrev one_variable : StringMap Text
one_variable = (bytes "HOME", bytes "/root") ∷ []

abbrev price : Text
price = bytes "5$ ${HOME}"

-- A provider that counts its calls.
abbrev counting : Provider ℕ
counting = record { name = bytes "bws"; resolve = λ ref w. (inr (bytes "s3cret"), suc w) }

abbrev resolver : Resolver ℕ
resolver = record { providers = (bytes "bws", counting) ∷ []; strict = true }

resolve_value-escape_example :
    resolve_value ascii one_variable (some resolver) (escape price) 0 ≡ (inr price, 0)
unfolding contains
resolve_value-escape_example =
    resolve_value-escape ascii one_variable (some resolver) price 0 refl refl

-- The ref is the rest of the value, with the reference that stands in it.
parse_secret_ref-ref_text_example :
    parse_secret_ref (ref_text (bytes "bws") (bytes "a secretref:bws:b"))
    ≡ some (bytes "bws", bytes "a secretref:bws:b")
parse_secret_ref-ref_text_example =
    parse_secret_ref-ref_text (bytes "bws") (bytes "a secretref:bws:b") refl refl refl

-- Variables, an escaped dollar sign and a variable that is missing.
expansion_test :
    expand_env_strict one_variable (bytes "${HOME}/$HOME/$$1$2-${a b}")
    ≡ inr (bytes "/root//root/$1-")
unfolding expand_env_strict replace_from references missing_of expand_from get_shell_name lookup
    member ◌=ᵗ◌
expansion_test = refl

missing_test :
    expand_env_strict one_variable (bytes "${B} ${A} ${HOME}") ≡ inl (bytes "A" ∷ bytes "B" ∷ [])
unfolding expand_env_strict replace_from references missing_of expand_from get_shell_name lookup
    member ◌=ᵗ◌ sort_strings before
missing_test = refl

-- Two references inside of a text, resolved from the last to the first.
inline_test :
    resolve_inline ascii resolver (bytes "x secretref:bws:a secretref:bws:b y") 0
    ≡ (inr (bytes "x s3cret s3cret y"), 2)
unfolding resolve_inline resolve_pieces pieces_from match_at resolve_single trim_space skip_spaces
    lookup ◌=ᵗ◌
inline_test = refl

-- An unknown provider.
unknown_test :
    resolve_value ascii one_variable (some resolver) (bytes "secretref:vault:b") 4
    ≡ (inl (ResolveErr.not_registered (bytes "vault")), 4)
unfolding resolve_value expand_env_strict replace_from references missing_of expand_from
    get_shell_name parse_secret_ref cut_byte resolve_single trim_space skip_spaces lookup member
    ◌=ᵗ◌
unknown_test = refl
