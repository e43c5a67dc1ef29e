-- ===== src/Auth/Jwt.antt =====
-- auth/jwt.go: JSON web tokens. The token library is the parameter `Parser`.
pub mod Header
pub mod Audience
pub mod Described
pub mod Acceptance
use toolops.Base.{
  ◌≡◌, Bool, true, false, ◌&&◌, not, Option, none, some, List, [], ◌∷◌, is_some, if◌then◌else◌, ◌⊎◌,
  inl, inr,
}
use toolops.Base.Int.{ℤ}
use toolops.Base.Time.{Instant, unix}
use toolops.Base.Text.{Text, bytes, ◌=ᵗ◌, has_prefix, trim_prefix, contains, member}
use toolops.Base.StringMap.{lookup}
use toolops.Base.Unicode.{Unicode, trim_space}
use toolops.Auth.Identity.{
  Any, str, arr, Identity, Err, err_missing_credentials, err_invalid_credentials, err_token_expired,
  err_token_malformed, auth_method_jwt,
}
use toolops.Auth.Authenticator.{
  AuthRequest, AuthResult, Answer, result, Authenticator, get_header, auth_success, auth_failure,
}
use toolops.Auth.Claims.{Claims, as_string, as_seconds, strings_of, string_at, strings_at}

pub record JwtConfig : Type 0 where
  pub issuer : Text
  pub audience : Text
  pub header_name : Text
  pub token_prefix : Text
  pub principal_claim : Text
  pub tenant_claim : Text
  pub roles_claim : Text

-- A key for validation: the bytes of a secret, or an RSA key.
pub data SigningKey (R : Type 0) : Type 0 where
  secret : Text → SigningKey R
  rsa : R → SigningKey R

-- The interface KeyProvider, with the keys that it returns.
pub record KeyProvider (K W : Type 0) : Type 0 where
  pub get_key : Text → W → (Err ⊎ K) × W

unfoldable pub new_static_key_provider : {R W : Type 0} → Text → KeyProvider (SigningKey R) W
new_static_key_provider key = record { get_key = λ key_id w. (inr (secret key), w) }

abbrev or_text : Text → Text → Text
or_text s d = if s =ᵗ [] then d else s

unfoldable pub new_config : JwtConfig → JwtConfig
new_config config = record config {
  header_name = or_text config.header_name (bytes "Authorization");
  token_prefix = or_text config.token_prefix (bytes "Bearer ");
  principal_claim = or_text config.principal_claim (bytes "sub");
}

-- What jwt.Parse returns: an error with its text, or a token with its field Valid and its claims, `none`
-- where they are not a map.
pub data Parsed : Type 0 where
  refused : Text → Parsed
  token : Bool → Option Claims → Parsed

-- jwt.Parse, which asks the key function for a key by the `kid` of the token's header.
pub record Parser (K W : Type 0) : Type 0 where
  pub parse : Text → (Option Any → W → (Err ⊎ K) × W) → W → Parsed × W

abbrev key_id : Option Text → Text
key_id none = []
key_id (some kid) = kid

abbrev audience_of : Option Any → List Text
audience_of (some (str s)) = s ∷ []
audience_of (some (arr vs)) = strings_of vs
audience_of _ = []

unfoldable pub get_audience : Claims → List Text
unfolding lookup strings_of
get_audience claims = audience_of (lookup (bytes "aud") claims)

abbrev pub claim : Text → Claims → Text
claim name claims = if name =ᵗ [] then [] else string_at name claims

abbrev time_of : Option ℤ → Instant
time_of none = 0
time_of (some s) = unix s

unfoldable pub build_identity : JwtConfig → Claims → Identity
unfolding string_at strings_at lookup
build_identity config claims = record {
  principal = string_at config.principal_claim claims;
  tenant_id = claim config.tenant_claim claims;
  roles = if config.roles_claim =ᵗ [] then [] else strings_at config.roles_claim claims;
  permissions = [];
  method = auth_method_jwt;
  claims = claims;
  expires_at = time_of (as_seconds (lookup (bytes "exp") claims));
  issued_at = time_of (as_seconds (lookup (bytes "iat") claims));
}

-- The checks of the issuer and the audience.
abbrev same_text : Text → Option Text → Bool
same_text target none = false
same_text target (some s) = s =ᵗ target

unfoldable pub issuer_ok : JwtConfig → Claims → Bool
unfolding lookup
issuer_ok config claims =
    if config.issuer =ᵗ []
    then true
    else same_text config.issuer (as_string (lookup (bytes "iss") claims))

-- The loop of containsAudience.
abbrev pub contains_audience : List Text → Text → Bool
contains_audience audiences target = member target audiences

unfoldable pub audience_ok : JwtConfig → Claims → Bool
unfolding get_audience member
audience_ok config claims =
    if config.audience =ᵗ [] then true else contains_audience (get_audience claims) config.audience

abbrev pub jwt : Text
jwt = bytes "jwt"

abbrev check_claims : JwtConfig → Option Claims → AuthResult
check_claims config none = auth_failure err_token_malformed jwt
check_claims config (some claims) =
    if not (issuer_ok config claims)
    then auth_failure err_invalid_credentials jwt
    else if not (audience_ok config claims)
    then auth_failure err_invalid_credentials jwt
    else auth_success (build_identity config claims)

unfoldable pub check_parsed : JwtConfig → Parsed → AuthResult
unfolding contains
check_parsed config (refused message) =
    if contains (bytes "expired") message
    then auth_failure err_token_expired jwt
    else auth_failure err_token_malformed jwt
check_parsed config (token valid claims) =
    if not valid then auth_failure err_invalid_credentials jwt else check_claims config claims

module _ {K W : Type 0} (u : Unicode) (parser : Parser K W) (provider : KeyProvider K W)
    (config : JwtConfig) where
  unfoldable pub supports : AuthRequest → W → Bool
  supports req w = has_prefix config.token_prefix (get_header req config.header_name)

  abbrev pub key_function : Option Any → W → (Err ⊎ K) × W
  key_function kid w = provider.get_key (key_id (as_string kid)) w

  abbrev parse_token : Text → W → Answer × W
  parse_token token_string w =
      let (parsed, w') = parser.parse token_string key_function w in
      (result (check_parsed config parsed), w')

  unfoldable pub authenticate : AuthRequest → W → Answer × W
  unfolding check_parsed
  authenticate req w =
      let header = get_header req config.header_name in
      let token_string = trim_prefix config.token_prefix header in
      if header =ᵗ []
      then (result (auth_failure err_missing_credentials jwt), w)
      else if token_string =ᵗ header
      then (result (auth_failure err_missing_credentials jwt), w)
      else parse_token (trim_space u token_string) w

  unfoldable pub as_authenticator : Authenticator W
  as_authenticator = record { name = jwt; supports = supports; authenticate = authenticate }
