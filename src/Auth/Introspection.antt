-- ===== src/Auth/Introspection.antt =====
-- auth/oauth2_introspection.go: OAuth2 tokens, checked by the introspection endpoint and cached.
--
-- The HTTP client with its JSON decoder, base64, SHA-256 with hex (`digest`) and package unicode are
-- parameters.
pub mod Bearer
pub mod Described
pub mod Answers
pub mod Acceptance
pub mod Caching
use toolops.Base.{
  ℕ, ◌≡◌, ◌*◌, Bool, true, false, not, Option, none, some, List, [], ◌∷◌, ◌++◌, length, take, drop,
  ltb, ◌==◌, if◌then◌else◌, ◌⊎◌, inl, inr,
}
use toolops.Base.Int.{ℤ, pos, ltb_ℤ}
use toolops.Base.Time.{Instant, Duration, second, add, after, unix}
use toolops.Base.Text.{Text, bytes, ◌=ᵗ◌, split_byte}
use toolops.Base.StringMap.{StringMap, lookup, insert}
use toolops.Base.Unicode.{Unicode, to_lower, trim_space}
use toolops.Base.World.{Cell}
use toolops.Auth.Identity.{
  Identity, Err, err_missing_credentials, err_token_inactive, err_introspection_failed, other,
  auth_method_oauth2,
}
use toolops.Auth.Authenticator.{
  AuthRequest, AuthResult, Answer, result, failed, Authenticator, get_header, auth_success,
  auth_failure,
}
use toolops.Auth.TokenCache.{TokenCache, cached, remember}
use toolops.Auth.Claims.{Claims, as_string, as_bool, as_seconds, string_at, strings_at}

pub record Oauth2Config : Type 0 where
  pub introspection_endpoint : Text
  pub client_id : Text
  pub client_secret : Text
  pub client_auth_method : Text
  pub cache_ttl : Duration
  pub timeout : Duration
  pub principal_claim : Text
  pub tenant_claim : Text
  pub roles_claim : Text
  pub scopes_claim : Text

abbrev or_text : Text → Text → Text
or_text s d = if s =ᵗ [] then d else s

-- A duration of zero takes its default; a negative one stays.
abbrev or_time : Duration → ℕ → Duration
or_time (pos ℕ.zero) d = pos d
or_time d _ = d

unfoldable pub new_config : Oauth2Config → Oauth2Config
new_config config = record config {
  client_auth_method = or_text config.client_auth_method (bytes "client_secret_basic");
  cache_ttl = or_time config.cache_ttl (5 * 60 * second);
  timeout = or_time config.timeout (10 * second);
  principal_claim = or_text config.principal_claim (bytes "sub");
  scopes_claim = or_text config.scopes_claim (bytes "scope");
}

pub record IntrospectionResult : Type 0 where
  pub active : Bool
  pub sub : Text
  pub scope : Text
  pub exp : ℤ
  pub iat : ℤ
  pub client_id : Text
  pub claims : Claims

-- What is sent to the endpoint: the form, and the credentials of the Authorization header.
pub record HttpRequest : Type 0 where
  pub endpoint : Text
  pub form : StringMap Text
  pub basic : Option Text

abbrev client_fields : Oauth2Config → StringMap Text
client_fields config =
    if config.client_auth_method =ᵗ bytes "client_secret_post"
    then (bytes "client_id", config.client_id) ∷ (bytes "client_secret", config.client_secret) ∷ []
    else []

unfoldable pub request_of : (Text → Text) → Oauth2Config → Text → HttpRequest
request_of base64 config token = record {
  endpoint = config.introspection_endpoint;
  form = (bytes "token", token) ∷ client_fields config;
  basic =
      if config.client_auth_method =ᵗ bytes "client_secret_basic"
      then some (base64 (config.client_id ++ bytes ":" ++ config.client_secret))
      else none;
}

-- What comes of it: no request, no response, or a status code with the decoded body, `none` where the
-- body is not the JSON of a map.
pub data Reply : Type 0 where
  no_request : ℕ → Reply
  no_response : Reply
  replied : ℕ → Option Claims → Reply

abbrev or_false : Option Bool → Bool
or_false none = false
or_false (some b) = b

abbrev or_zero : Option ℤ → ℤ
or_zero none = pos 0
or_zero (some n) = n

unfoldable pub read_response : Claims → IntrospectionResult
unfolding string_at lookup
read_response raw = record {
  active = or_false (as_bool (lookup (bytes "active") raw));
  sub = string_at (bytes "sub") raw;
  scope = string_at (bytes "scope") raw;
  exp = or_zero (as_seconds (lookup (bytes "exp") raw));
  iat = or_zero (as_seconds (lookup (bytes "iat") raw));
  client_id = string_at (bytes "client_id") raw;
  claims = raw;
}

-- The rest of `introspect`; an error, or a result.
abbrev pub decode : Option Claims → Err ⊎ IntrospectionResult
decode none = inl err_introspection_failed
decode (some raw) = inr (read_response raw)

abbrev pub judge : Reply → Err ⊎ IntrospectionResult
judge (no_request e) = inl (other e)
judge no_response = inl err_introspection_failed
judge (replied status body) = if status == 200 then decode body else inl err_introspection_failed

abbrev pub claim : Text → Claims → Text
claim name claims = if name =ᵗ [] then [] else string_at name claims

abbrev scopes_of : Text → List Text
scopes_of scope = if scope =ᵗ [] then [] else split_byte b' ' scope

abbrev pub positive_time : ℤ → Instant
positive_time n = if ltb_ℤ (pos 0) n then unix n else 0

unfoldable pub build_identity : Oauth2Config → IntrospectionResult → Identity
unfolding string_at strings_at split_byte
build_identity config r = record {
  principal = claim config.principal_claim r.claims;
  tenant_id = claim config.tenant_claim r.claims;
  roles = if config.roles_claim =ᵗ [] then [] else strings_at config.roles_claim r.claims;
  permissions = scopes_of (claim config.scopes_claim r.claims);
  method = auth_method_oauth2;
  claims = r.claims;
  expires_at = positive_time r.exp;
  issued_at = positive_time r.iat;
}

abbrev bearer_token : Text → Option Text
bearer_token token = if token =ᵗ [] then none else some token

unfoldable pub extract_bearer_token : Unicode → Text → Option Text
unfolding to_lower trim_space
extract_bearer_token u header =
    if ltb (length header) 7
    then none
    else if not (to_lower u (take 7 header) =ᵗ bytes "bearer ")
    then none
    else bearer_token (trim_space u (drop 7 header))

-- The cache, the clock and the exchange with the endpoint.
pub record Host (W : Type 0) : Type 0 where
  pub cache : Cell W TokenCache
  pub now : W → Instant
  pub send : HttpRequest → W → Reply × W

module _ {W : Type 0} (u : Unicode) (base64 digest : Text → Text) (h : Host W)
    (config : Oauth2Config) where
  open h use {cache, now, send}

  unfoldable pub supports : AuthRequest → W → Bool
  supports req w = elim (extract_bearer_token u (get_header req (bytes "Authorization"))) [
    | none ↦ false
    | some token ↦ true
  ]

  unfoldable pub introspect : Text → W → (Err ⊎ IntrospectionResult) × W
  introspect token w =
      let (reply, w') = send (request_of base64 config token) w in (judge reply, w')

  abbrev accept : Text → Identity → W → Answer × W
  accept token identity w = (
    result (auth_success identity),
    cache.put (remember (now w) (digest token) identity config.cache_ttl (cache.get w)) w,
  )

  -- After the introspection.
  abbrev pub settle : Text → (Err ⊎ IntrospectionResult) × W → Answer × W
  settle token (inl err, w) = (failed err, w)
  settle token (inr r, w) =
      if not r.active
      then (result (auth_failure err_token_inactive (bytes "Bearer")), w)
      else accept token (build_identity config r) w

  abbrev pub check_token : Text → Option Identity → W → Answer × W
  check_token token (some identity) w = (result (auth_success identity), w)
  check_token token none w = settle token (introspect token w)

  abbrev with_token : Option Text → W → Answer × W
  with_token none w = (result (auth_failure err_missing_credentials (bytes "Bearer")), w)
  with_token (some token) w = check_token token (cached (now w) (digest token) (cache.get w)) w

  unfoldable pub authenticate : AuthRequest → W → Answer × W
  unfolding introspect
  authenticate req w =
      with_token (extract_bearer_token u (get_header req (bytes "Authorization"))) w

  unfoldable pub as_authenticator : Authenticator W
  as_authenticator = record {
    name = bytes "oauth2_introspection";
    supports = supports;
    authenticate = authenticate;
  }
