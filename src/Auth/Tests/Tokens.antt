-- ===== src/Auth/Tests/Tokens.antt =====
-- The theorems on tokens and their keys at concrete inputs.
use toolops.Base.{ℕ, ◌+◌, ◌*◌, arith, ◌≡◌, refl, ◌↔◌, true, Option, some, [], ◌∷◌, inl, inr}
use toolops.Base.Int.{pos}
use toolops.Base.Time.{second, since}
use toolops.Base.Text.{Text, bytes, ◌=ᵗ◌}
use toolops.Base.StringMap.{lookup}
use toolops.Base.Unicode.{Unicode, to_lower, trim_space, skip_spaces}
use toolops.Auth.Identity.{
  boolean, float, str, arr, no_items, item, Identity, other, err_key_not_found,
}
use toolops.Auth.Authenticator.{AuthRequest, result, auth_success, get_header}
use toolops.Auth.Claims.{Claims}
use toolops.Auth.Introspection.{
  Oauth2Config, HttpRequest, Reply, replied, read_response, extract_bearer_token,
}
use toolops.Auth.TokenCache.{TokenCache, cached}
use toolops.Auth.Introspection
use toolops.Auth.Introspection.Acceptance.{Accepted, stored, introspection_iff}
use toolops.Auth.Introspection.Caching.{introspection_cached}
use toolops.Auth.Jwt.{JwtConfig, KeyProvider, Parser, token, new_static_key_provider, SigningKey}
use toolops.Auth.Jwt
use toolops.Auth.Jwt.Acceptance.{IsAccepted, jwt_iff}
use toolops.Auth.Jwks.{
  JwksConfig, RsaPublicKey, JwkKey, JwksKeyProvider, new_jwks_key_provider, fetched, cache_valid,
  get_key,
}
use toolops.Auth.Jwks
use toolops.Auth.Jwks.Backup.{IsDown}
use toolops.Auth.Jwks.Withdrawal.{get_key_withdrawn}

abbrev ascii : Unicode
ascii = record { lower = λ s. s; trim = λ s. s; trim_right = λ s. s }

-- The cache of tokens and the time, with an endpoint that finds the token active, but expired long ago.
abbrev Cached : Type 0
Cached = TokenCache × ℕ

abbrev active_claims : Claims
active_claims =
    (bytes "active", boolean true)
    ∷ (bytes "sub", str (bytes "ann"))
    ∷ (bytes "exp", float (pos 3))
    ∷ []

abbrev endpoint : Introspection.Host Cached
endpoint = record {
  cache = record { get = λ w. w.0; put = λ c w. (c, w.1); get-put = λ c w. refl };
  now = λ w. w.1;
  send = λ request w. (replied 200 (some active_claims), w);
}

abbrev oauth2 : Oauth2Config
oauth2 = record {
  introspection_endpoint = bytes "https://idp/introspect";
  client_id = bytes "me";
  client_secret = bytes "secret";
  client_auth_method = bytes "client_secret_basic";
  cache_ttl = pos (5 * second);
  timeout = pos (10 * second);
  principal_claim = bytes "sub";
  tenant_claim = [];
  roles_claim = [];
  scopes_claim = bytes "scope";
}

abbrev with_bearer : AuthRequest
with_bearer = record {
  headers = some ((bytes "Authorization", bytes "Bearer abc" ∷ []) ∷ []);
  resource = [];
  metadata = [];
}

abbrev start : Cached
start = (record { entries = [] }, 1_000)

abbrev ann : Identity
ann = Introspection.build_identity oauth2 (read_response active_claims)

introspection_iff_example :
    (Introspection.authenticate ascii (λ s. s) (λ s. s) endpoint oauth2 with_bearer start ≡ (
      result (auth_success ann),
      stored ascii (λ s. s) (λ s. s) endpoint oauth2 (bytes "abc") ann start,
    ))
    ↔ Accepted ascii
        (λ s. s)
        (λ s. s)
        endpoint
        oauth2
        with_bearer
        start
        ann
        (stored ascii (λ s. s) (λ s. s) endpoint oauth2 (bytes "abc") ann start)
introspection_iff_example =
    introspection_iff ascii (λ s. s) (λ s. s) endpoint oauth2 with_bearer start ann
      (stored ascii (λ s. s) (λ s. s) endpoint oauth2 (bytes "abc") ann start)

-- A second later.
abbrev later : Cached
later = (
  (Introspection.authenticate ascii (λ s. s) (λ s. s) endpoint oauth2 with_bearer start).1.0,
  1_000 + second,
)

introspection_cached_example :
    Introspection.authenticate ascii (λ s. s) (λ s. s) endpoint oauth2 with_bearer later
    ≡ (result (auth_success ann), later)
unfolding extract_bearer_token get_header lookup to_lower trim_space skip_spaces ◌=ᵗ◌ cached
introspection_cached_example =
    introspection_cached ascii (λ s. s) (λ s. s) endpoint oauth2 with_bearer with_bearer start start
      later (bytes "abc") active_claims refl refl refl refl refl refl (omega arith)

-- A library that finds any token valid.
abbrev jwt_claims : Claims
jwt_claims =
    (bytes "sub", str (bytes "ann"))
    ∷ (bytes "iss", str (bytes "idp"))
    ∷ (bytes "aud", arr (item (str (bytes "tools")) no_items))
    ∷ (bytes "roles", arr (item (str (bytes "admin")) (item (boolean true) no_items)))
    ∷ (bytes "exp", float (pos 3))
    ∷ []

abbrev trusting : Parser (SigningKey ℕ) ℕ
trusting = record { parse = λ text key w. (token true (some jwt_claims), w) }

abbrev jwt_config : JwtConfig
jwt_config = record {
  issuer = bytes "idp";
  audience = bytes "tools";
  header_name = bytes "Authorization";
  token_prefix = bytes "Bearer ";
  principal_claim = bytes "sub";
  tenant_claim = [];
  roles_claim = bytes "roles";
}

jwt_iff_example :
    (Jwt.authenticate ascii trusting (new_static_key_provider (bytes "k")) jwt_config with_bearer 0
      ≡ (result (auth_success (Jwt.build_identity jwt_config jwt_claims)), 0))
    ↔ IsAccepted ascii trusting
        (new_static_key_provider (bytes "k"))
        jwt_config
        with_bearer
        0
        0
        (Jwt.build_identity jwt_config jwt_claims)
jwt_iff_example =
    jwt_iff ascii trusting (new_static_key_provider (bytes "k")) jwt_config with_bearer 0 0
      (Jwt.build_identity jwt_config jwt_claims)

-- A provider with one key, the time, and what the endpoint replies.
abbrev pub Served : Type 0
Served = JwksKeyProvider × (ℕ × Jwks.Reply)

abbrev pub served : Jwks.Host Served
served = record {
  provider = record { get = λ w. w.0; put = λ p w. (p, w.1); get-put = λ p w. refl };
  now = λ w. w.1.0;
  fetch = λ url w. (w.1.1, w);
}

abbrev pub jwks_config : JwksConfig
jwks_config = record { url = bytes "https://idp/jwks"; cache_ttl = pos 10 }

abbrev a_key : RsaPublicKey
a_key = record { n = 35; e = pos 5 }

abbrev one_key : JwksKeyProvider
one_key = record {
  config = jwks_config;
  keys = (bytes "k", a_key) ∷ [];
  cache_time = 0;
  last_fetched = (bytes "k", a_key) ∷ [];
}

abbrev pub plain : Text → Option Text
plain s = some s

-- The endpoint replies without the key, and fails later.
abbrev withdrawing : Served
withdrawing = (one_key, (100, Jwks.replied 200 []))

abbrev failing_later : Served
failing_later = ((get_key plain served (bytes "k") withdrawing).1.0, (200, Jwks.no_reply 1))

failing_later-IsDown : IsDown plain served failing_later
unfolding fetched
failing_later-IsDown = record {
  reply = Jwks.no_reply 1;
  error = other 1;
  after = failing_later;
  replies = refl;
  fails = refl;
  same = refl;
}

get_key_withdrawn_example :
    ((get_key plain served (bytes "k") withdrawing).0 ≡ inl err_key_not_found)
    × ((get_key plain served (bytes "k") failing_later).0 ≡ inr a_key)
unfolding lookup ◌=ᵗ◌ cache_valid since fetched
get_key_withdrawn_example =
    get_key_withdrawn plain served (bytes "k") a_key withdrawing withdrawing failing_later
      (Jwks.replied 200 []) [] refl refl refl refl refl refl refl refl failing_later-IsDown
