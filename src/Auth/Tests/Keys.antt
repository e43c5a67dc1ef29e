-- ===== src/Auth/Tests/Keys.antt =====
-- Keys of an endpoint that fails, at concrete inputs.
use toolops.Base.{◌≡◌, refl, List, [], ◌∷◌, inr}
use toolops.Base.Text.{bytes, ◌=ᵗ◌}
use toolops.Base.Time.{Instant}
use toolops.Base.StringMap.{lookup, insert}
use toolops.Base.Int.{pos, wrap64}
use toolops.Auth.Identity.{other}
use toolops.Auth.Jwks.{
  JwkKey, new_jwks_key_provider, parse_rsa_public_key, fetched, get_key, no_reply,
}
use toolops.Auth.Jwks.Backup.{refreshed, IsDown}
use toolops.Auth.Jwks.Degradation.{last_known, get_key_last_known}
use toolops.Auth.Tests.Tokens.{Served, served, jwks_config, plain}

-- The second response leaves the key out.
abbrev responses : List (Instant × List JwkKey)
responses =
    (5, record { kty = bytes "RSA"; kid = bytes "k"; n = 35 ∷ []; e = 5 ∷ [] } ∷ [])
    ∷ (100, [])
    ∷ []

abbrev down : Served
down = (refreshed plain responses (new_jwks_key_provider jwks_config), (200, no_reply 1))

down-IsDown : IsDown plain served down
unfolding fetched
down-IsDown = record {
  reply = no_reply 1;
  error = other 1;
  after = down;
  replies = refl;
  fails = refl;
  same = refl;
}

get_key_last_known_example :
    (get_key plain served (bytes "k") down).0 ≡ inr (record { n = 35; e = wrap64 (pos 5) })
unfolding last_known parse_rsa_public_key lookup insert ◌=ᵗ◌
get_key_last_known_example =
    get_key_last_known plain served responses jwks_config (bytes "k") _ down refl refl refl
      down-IsDown
