-- ===== src/Cache/Key.antt =====
-- cache/cache.go: the interface Cache, its errors, and which keys are valid.
use toolops.Base.{ℕ, ◌||◌, Option, none, some, length, ltb, ◌==◌, any, is_empty, if◌then◌else◌}
use toolops.Base.Time.{Duration}
use toolops.Base.Text.{Text}
use toolops.Base.Unicode.{Unicode, trim_space}

pub data Err : Type 0 where
  err_nil_cache err_invalid_key err_key_too_long : Err
  -- Any other error of a cache, a keyer or an executor.
  other : ℕ → Err

-- An implementation of the interface, over the world that it keeps its entries in.
pub record Cache (W : Type 0) : Type 0 where
  pub get : Text → W → Option Text × W
  pub set : Text → Text → Duration → W → Option Err × W
  pub delete : Text → W → Option Err × W

abbrev pub max_key_length : ℕ
max_key_length = 512

unfoldable pub validate_key : Unicode → Text → Option Err
unfolding trim_space
validate_key u key =
    if is_empty key || is_empty (trim_space u key)
    then some err_invalid_key
    else if ltb max_key_length (length key)
    then some err_key_too_long
    else if any (λ c. c == 10 || c == 13) key
    then some err_invalid_key
    else none
