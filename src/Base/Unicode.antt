-- ===== src/Base/Unicode.antt =====
-- strings.ToLower and strings.TrimSpace: their paths for ASCII, as in package strings, and the
-- functions of package unicode behind them as parameters.
use toolops.Base.{ℕ, ◌+◌, Bool, true, ◌&&◌, ◌||◌, [], ◌∷◌, map, ltb, leb, ◌==◌, if◌then◌else◌}
use toolops.Base.Text.{Text}
use mathlib.Core.List.{reverse}

-- What texts with a byte of 0x80 or more go through.
pub record Unicode : Type 0 where
  pub lower : Text → Text
  pub trim : Text → Text
  pub trim_right : Text → Text

abbrev pub is_ascii : Text → Bool
is_ascii [] = true
is_ascii (c ∷ s) = ltb c 0x80 && is_ascii s

abbrev pub lower_byte : ℕ → ℕ
lower_byte c = if leb b'A' c && leb c b'Z' then c + 32 else c

unfoldable pub to_lower : Unicode → Text → Text
to_lower u s = if is_ascii s then map lower_byte s else u.lower s

-- Tab, line feed, vertical tab, form feed, carriage return and space.
abbrev pub is_space : ℕ → Bool
is_space c = (leb 9 c && leb c 13) || c == 32

-- The bytes from the first that is no ASCII space.
unfoldable pub skip_spaces : Text → Text
skip_spaces [] = []
skip_spaces (c ∷ s) = if is_space c then skip_spaces s else c ∷ s

abbrev starts_ascii : Text → Bool
starts_ascii [] = true
starts_ascii (c ∷ s) = ltb c 0x80

unfoldable pub trim_space : Unicode → Text → Text
unfolding skip_spaces
trim_space u s =
    let front = skip_spaces s in
    let back = skip_spaces (reverse front) in
    if starts_ascii front
    then if starts_ascii back then reverse back else u.trim_right (reverse back)
    else u.trim front
