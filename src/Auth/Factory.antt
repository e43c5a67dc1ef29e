-- ===== src/Auth/Factory.antt =====
-- auth/factory.go, the factories of the default registry. time.ParseDuration, `parse`, is a parameter; it is
-- `none` where it fails. Each maker stands for the value that the factory returns: a configuration with its
-- defaults, and what else the constructor was given.
pub mod RoundTrip
use toolops.Base.{Bool, true, false, ◌≡◌, Option, none, some, List, [], ◌∷◌, map, ◌⊎◌, inl, inr}
use toolops.Base.Int.{ℤ, pos}
use toolops.Base.Time.{Duration}
use toolops.Base.Text.{Text, bytes}
use toolops.Base.StringMap.{StringMap, lookup, insert}
use toolops.Auth.Identity.{Any, obj, Items, no_items, item}
use toolops.Auth.Claims.{Claims, as_string, as_items, as_map, string_at, strings_at}
use toolops.Auth.Authorizer.{Authorizer, allow_all, deny_all}
use toolops.Auth.Rbac.{RoleConfig, RbacConfig, new_simple_rbac_authorizer}
use toolops.Auth.ApiKey.{ApiKeyConfig, ApiKeyInfo, MemoryApiKeyStore, new_memory_api_key_store, add}
use toolops.Auth.ApiKey
use toolops.Auth.Jwt.{JwtConfig}
use toolops.Auth.Jwt
use toolops.Auth.Jwks.{JwksConfig, JwksKeyProvider, new_jwks_key_provider}
use toolops.Auth.Introspection.{Oauth2Config}
use toolops.Auth.Introspection
use toolops.Auth.Registry.{
  Factory, Registry, RegistryErr, new_registry, register_authenticator, register_authorizer,
}

-- The key provider of a JWT authenticator.
pub data KeySource : Type 0 where
  jwks : JwksKeyProvider → KeySource
  static_key : Text → KeySource

pub data Made : Type 0 where
  jwt_authenticator : JwtConfig → KeySource → Made
  api_key_authenticator : ApiKeyConfig → MemoryApiKeyStore → Made
  oauth2_authenticator : Oauth2Config → Made

-- A duration that is absent or does not parse leaves the field at zero.
abbrev pub parsed_or_zero : Option Duration → Duration
parsed_or_zero none = pos 0
parsed_or_zero (some d) = d

abbrev pub and_then : {A B : Type 0} → (A → Option B) → Option A → Option B
and_then f none = none
and_then f (some a) = f a

abbrev pub duration_at : (Text → Option Duration) → Text → Claims → Duration
duration_at parse key cfg = parsed_or_zero (and_then parse (as_string (lookup key cfg)))

unfoldable pub jwt_config_of : Claims → JwtConfig
unfolding string_at
jwt_config_of cfg = record {
  issuer = string_at (bytes "issuer") cfg;
  audience = string_at (bytes "audience") cfg;
  header_name = string_at (bytes "header_name") cfg;
  token_prefix = string_at (bytes "token_prefix") cfg;
  principal_claim = string_at (bytes "principal_claim") cfg;
  tenant_claim = string_at (bytes "tenant_claim") cfg;
  roles_claim = string_at (bytes "roles_claim") cfg;
}

abbrev static_of : Option Text → KeySource
static_of none = static_key []
static_of (some secret) = static_key secret

abbrev source_of : (Text → Option Duration) → Claims → Option Text → KeySource
source_of parse cfg none = static_of (as_string (lookup (bytes "secret") cfg))
source_of parse cfg (some url) = jwks (
    new_jwks_key_provider
      (record { url = url; cache_ttl = duration_at parse (bytes "cache_ttl") cfg }))

unfoldable pub key_source_of : (Text → Option Duration) → Claims → KeySource
unfolding lookup
key_source_of parse cfg = source_of parse cfg (as_string (lookup (bytes "jwks_url") cfg))

abbrev pub make_jwt : (Text → Option Duration) → Factory Made
make_jwt parse cfg =
    inr (jwt_authenticator (Jwt.new_config (jwt_config_of cfg)) (key_source_of parse cfg))

-- The entry that one element of "keys" describes.
unfoldable pub info_of : Claims → ApiKeyInfo
unfolding string_at strings_at
info_of key_map = record {
  id = string_at (bytes "id") key_map;
  key_hash = string_at (bytes "hash") key_map;
  principal = string_at (bytes "principal") key_map;
  tenant_id = string_at (bytes "tenant_id") key_map;
  roles = strings_at (bytes "roles") key_map;
  expires_at = 0;
  metadata = [];
}

abbrev add_map : Option Claims → MemoryApiKeyStore → MemoryApiKeyStore
add_map none store = store
add_map (some key_map) store = add (info_of key_map) store

-- The loop over "keys"; an element that is not a map is skipped.
unfoldable pub add_keys : Items → MemoryApiKeyStore → MemoryApiKeyStore
unfolding as_map
add_keys no_items store = store
add_keys (item k ks) store = add_keys ks (add_map (as_map (some k)) store)

abbrev store_with : Option Items → MemoryApiKeyStore
store_with none = new_memory_api_key_store
store_with (some keys) = add_keys keys new_memory_api_key_store

unfoldable pub api_key_config_of : Claims → ApiKeyConfig
unfolding string_at
api_key_config_of cfg = record {
  header_name = string_at (bytes "header_name") cfg;
  hash_algorithm = string_at (bytes "hash_algorithm") cfg;
}

unfoldable pub key_store_of : Claims → MemoryApiKeyStore
unfolding lookup
key_store_of cfg = store_with (as_items (lookup (bytes "keys") cfg))

abbrev pub make_api_key : Factory Made
make_api_key cfg =
    inr (api_key_authenticator (ApiKey.new_config (api_key_config_of cfg)) (key_store_of cfg))

unfoldable pub oauth2_config_of : (Text → Option Duration) → Claims → Oauth2Config
unfolding string_at
oauth2_config_of parse cfg = record {
  introspection_endpoint = string_at (bytes "introspection_endpoint") cfg;
  client_id = string_at (bytes "client_id") cfg;
  client_secret = string_at (bytes "client_secret") cfg;
  client_auth_method = string_at (bytes "client_auth_method") cfg;
  cache_ttl = duration_at parse (bytes "cache_ttl") cfg;
  timeout = duration_at parse (bytes "timeout") cfg;
  principal_claim = string_at (bytes "principal_claim") cfg;
  tenant_claim = string_at (bytes "tenant_claim") cfg;
  roles_claim = string_at (bytes "roles_claim") cfg;
  scopes_claim = string_at (bytes "scopes_claim") cfg;
}

abbrev pub make_oauth2 : (Text → Option Duration) → Factory Made
make_oauth2 parse cfg =
    inr (oauth2_authenticator (Introspection.new_config (oauth2_config_of parse cfg)))

abbrev pub empty_role : RoleConfig
empty_role = record {
  permissions = [];
  inherits = [];
  allowed_tools = [];
  denied_tools = [];
  allowed_actions = [];
}

-- A role whose data is not a map is configured without anything.
unfoldable pub role_config_of : Option Claims → RoleConfig
unfolding strings_at
role_config_of none = empty_role
role_config_of (some rd) = record {
  permissions = strings_at (bytes "permissions") rd;
  inherits = strings_at (bytes "inherits") rd;
  allowed_tools = strings_at (bytes "allowed_tools") rd;
  denied_tools = strings_at (bytes "denied_tools") rd;
  allowed_actions = strings_at (bytes "allowed_actions") rd;
}

-- The loop over "roles", a map, whose keys differ.
unfoldable pub roles_of : Option Claims → StringMap RoleConfig
unfolding as_map role_config_of
roles_of none = []
roles_of (some roles) = map (λ (e : Text × Any). (e.0, role_config_of (as_map (some (e.1))))) roles

unfoldable pub rbac_config_of : Claims → RbacConfig
unfolding lookup as_map roles_of string_at
rbac_config_of cfg = record {
  roles = roles_of (as_map (lookup (bytes "roles") cfg));
  default_role = string_at (bytes "default_role") cfg;
}

abbrev pub make_simple_rbac : Factory Authorizer
make_simple_rbac cfg = inr (new_simple_rbac_authorizer (rbac_config_of cfg))

-- `init()`: the errors of the registrations are dropped.
unfoldable pub default_registry : (Text → Option Duration) → Registry Made Authorizer
unfolding new_registry register_authenticator register_authorizer
default_registry parse =
    let r : Registry Made Authorizer = new_registry in
    let r1 = (register_authenticator (bytes "jwt") (some (make_jwt parse)) r).0 in
    let r2 = (register_authenticator (bytes "api_key") (some make_api_key) r1).0 in
    let r3 = (register_authorizer (bytes "simple_rbac") (some make_simple_rbac) r2).0 in
    let r4 = (register_authorizer (bytes "allow_all") (some (λ cfg. inr allow_all)) r3).0 in
    let r5 = (register_authorizer (bytes "deny_all") (some (λ cfg. inr deny_all)) r4).0 in
    (register_authenticator (bytes "oauth2_introspection") (some (make_oauth2 parse)) r5).0
