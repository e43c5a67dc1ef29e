-- ===== src/Secret/ExpandEnv.antt =====
-- secret/expandenv.go: strict expansion of environment variables, with strings.ReplaceAll, os.Expand and the
-- search for `${NAME}` as in Go's library. The environment is a map of its variables.
pub mod Escape
use toolops.Base.{
  ℕ, zero, suc, ◌+◌, Bool, true, false, ◌&&◌, ◌||◌, not, Option, none, some, List, [], ◌∷◌, ◌++◌,
  length, leb, ltb, ◌==◌, if◌then◌else◌, is_some, is_empty, take, drop, ◌⊎◌, inl, inr,
}
use toolops.Base.Text.{Text, bytes, ◌=ᵗ◌, has_prefix, member}
use toolops.Base.StringMap.{StringMap, lookup}
use toolops.Base.Sort.{sort_strings}

-- strings.ReplaceAll for an `old` that is not empty; the first argument is how many bytes of the last match
-- are still to be passed over.
unfoldable pub replace_from : ℕ → Text → Text → Text → Text
replace_from skip old new [] = []
replace_from (suc skip) old new (c ∷ s) = replace_from skip old new s
replace_from zero old new (c ∷ s) =
    let matched = replace_from (length (drop 1 old)) old new s in
    let passed = replace_from zero old new s in
    if has_prefix old (c ∷ s) then new ++ matched else c ∷ passed

abbrev pub replace_all : Text → Text → Text → Text
replace_all old new s = replace_from zero old new s

abbrev pub is_letter : ℕ → Bool
is_letter c = (leb b'A' c && leb c b'Z') || (leb b'a' c && leb c b'z') || c == b'_'

abbrev pub is_digit : ℕ → Bool
is_digit c = leb b'0' c && leb c b'9'

abbrev pub is_alpha_num : ℕ → Bool
is_alpha_num c = is_letter c || is_digit c

-- `isShellSpecialVar`: * # $ @ ! ? - and the digits.
abbrev pub is_special : ℕ → Bool
is_special c =
    c == b'*'
    || c == b'#'
    || c == b'$'
    || c == b'@'
    || c == b'!'
    || c == b'?'
    || c == b'-'
    || is_digit c

-- The bytes up to the first that fails the test.
abbrev pub run_of : (ℕ → Bool) → Text → Text
run_of p [] = []
run_of p (c ∷ s) = if p c then c ∷ run_of p s else []

-- The name in `{name}`, of a text behind its opening brace.
abbrev braced : Text → Option Text
braced s =
    let name = run_of (λ c. not (c == b'}')) s in
    if has_prefix (b'}' ∷ []) (drop (length name) s) then some name else none

-- The matches of `\$\{([A-Za-z_][A-Za-z0-9_]*)\}`, their names.
abbrev is_name : Text → Bool
is_name [] = false
is_name (c ∷ s) = is_letter c && is_empty (drop (length (run_of is_alpha_num s)) s)

abbrev named : Option Text → List Text → List Text
named none rest = rest
named (some name) rest = if is_name name then name ∷ rest else rest

-- A name has no `$`, so that a match never hides another.
unfoldable pub references : Text → List Text
references [] = []
references (c ∷ s) =
    let rest = references s in
    if has_prefix (b'$' ∷ b'{' ∷ []) (c ∷ s) then named (braced (drop 1 s)) rest else rest

-- `getShellName`: the name behind a `$`, and how many bytes it takes up.
abbrev in_braces : Option Text → Text × ℕ
in_braces none = ([], 1)
in_braces (some []) = ([], 2)
in_braces (some (c ∷ name)) = (c ∷ name, length name + 3)

abbrev pub special_in_braces : Text → Option Text
special_in_braces (c ∷ d ∷ s) = if is_special c && d == b'}' then some (c ∷ []) else none
special_in_braces _ = none

unfoldable pub get_shell_name : Text → Text × ℕ
get_shell_name [] = ([], 0)
get_shell_name (c ∷ s) =
    if c == b'{'
    then elim (special_in_braces s) [ none ↦ in_braces (braced s) | some special ↦ (special, 3) ]
    else if is_special c
    then (c ∷ [], 1)
    else (run_of is_alpha_num (c ∷ s), length (run_of is_alpha_num (c ∷ s)))

abbrev pub dollar_sentinel : Text
dollar_sentinel = 0 ∷ bytes "TOOLOPS_SECRET_DOLLAR" ++ 0 ∷ []

module _ (env : StringMap Text) where
  -- os.Getenv
  abbrev pub getenv : Text → Text
  getenv key = elim (lookup key env) [ none ↦ [] | some v ↦ v ]

  -- What stands in the output for a `$` and a name that takes up `w` bytes.
  abbrev pub expansion : Text × ℕ → Text
  expansion ([], zero) = b'$' ∷ []
  expansion ([], suc w) = []
  expansion (c ∷ name, w) = getenv (c ∷ name)

  -- os.ExpandEnv, with the bytes that are still to be passed over.
  unfoldable pub expand_from : ℕ → Text → Text
  unfolding get_shell_name lookup
  expand_from skip [] = []
  expand_from (suc skip) (c ∷ s) = expand_from skip s
  expand_from zero (c ∷ s) =
      let found = get_shell_name s in
      let behind = expand_from (found.1) s in
      let passed = expand_from zero s in
      if c == b'$' && not (is_empty s) then expansion found ++ behind else c ∷ passed

  abbrev missing_from : Text → List Text → List Text
  missing_from key rest = if is_some (lookup key env) || member key rest then rest else key ∷ rest

  -- The missing variables, each once.
  unfoldable pub missing_of : List Text → List Text
  unfolding lookup member
  missing_of [] = []
  missing_of (key ∷ keys) = missing_from key (missing_of keys)

  abbrev pub or_missing : List Text → Text → List Text ⊎ Text
  or_missing [] s = inr (replace_all dollar_sentinel (b'$' ∷ []) (expand_from zero s))
  or_missing (key ∷ keys) s = inl (sort_strings (key ∷ keys))

  -- The error's names are the sorted list.
  unfoldable pub expand_env_strict : Text → List Text ⊎ Text
  unfolding replace_from references missing_of expand_from sort_strings
  expand_env_strict s =
      let hidden = replace_all (b'$' ∷ b'$' ∷ []) dollar_sentinel s in
      or_missing (missing_of (references hidden)) hidden
