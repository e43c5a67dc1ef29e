-- ===== src/Auth/ApiKey.antt =====
-- auth/apikey.go: API keys. SHA-256 with hex, `digest`, and package unicode are parameters.
pub mod Registry
pub mod Acceptance
use toolops.Base.{
  ℕ, ◌==◌, Bool, true, false, ◌&&◌, not, Option, none, some, List, [], ◌∷◌, if◌then◌else◌,
}
use toolops.Base.Time.{Instant, after, is_zero}
use toolops.Base.Text.{Text, bytes, ◌=ᵗ◌}
use toolops.Base.StringMap.{StringMap, lookup, insert, erase}
use toolops.Base.Unicode.{Unicode, trim_space}
use toolops.Base.World.{Cell}
use toolops.Auth.Identity.{
  Identity, Any, str, Err, err_missing_credentials, err_invalid_credentials, err_token_expired,
  auth_method_api_key,
}
use toolops.Auth.Authenticator.{
  AuthRequest, AuthResult, Answer, result, failed, Authenticator, get_header, auth_success,
  auth_failure,
}

pub record ApiKeyConfig : Type 0 where
  pub header_name : Text
  pub hash_algorithm : Text

pub record ApiKeyInfo : Type 0 where
  pub id : Text
  pub key_hash : Text
  pub principal : Text
  pub tenant_id : Text
  pub roles : List Text
  pub expires_at : Instant
  pub metadata : StringMap Any

-- What a store's Lookup returns: an error, or the key's entry if it has one.
pub data Looked : Type 0 where
  failing : Err → Looked
  found : Option ApiKeyInfo → Looked

pub record ApiKeyStore (W : Type 0) : Type 0 where
  pub lookup : Text → W → Looked × W

-- MemoryAPIKeyStore, keyed by hash.
pub record MemoryApiKeyStore : Type 0 where
  pub keys : StringMap ApiKeyInfo

unfoldable pub new_memory_api_key_store : MemoryApiKeyStore
new_memory_api_key_store = record { keys = [] }

unfoldable pub add : ApiKeyInfo → MemoryApiKeyStore → MemoryApiKeyStore
add info s = record { keys = insert info.key_hash info s.keys }

unfoldable pub remove : Text → MemoryApiKeyStore → MemoryApiKeyStore
remove key_hash s = record { keys = erase key_hash s.keys }

unfoldable pub as_store : {W : Type 0} → Cell W MemoryApiKeyStore → ApiKeyStore W
as_store cell = record { lookup = λ key_hash w. (found (lookup key_hash (cell.get w).keys), w) }

abbrev or_text : Text → Text → Text
or_text s d = if s =ᵗ [] then d else s

unfoldable pub new_config : ApiKeyConfig → ApiKeyConfig
new_config config = record {
  header_name = or_text config.header_name (bytes "X-API-Key");
  hash_algorithm = or_text config.hash_algorithm (bytes "sha256");
}

-- The claims: the metadata, then the key's id.
abbrev pub claims_of : ApiKeyInfo → StringMap Any
claims_of info = insert (bytes "key_id") (str info.id) info.metadata

unfoldable pub identity_of : ApiKeyInfo → Identity
identity_of info = record {
  principal = info.principal;
  tenant_id = info.tenant_id;
  roles = info.roles;
  permissions = [];
  method = auth_method_api_key;
  claims = claims_of info;
  expires_at = info.expires_at;
  issued_at = 0;
}

unfoldable pub has_expired : Instant → ApiKeyInfo → Bool
has_expired now info = not (is_zero info.expires_at) && after now info.expires_at

-- An algorithm that is not known is SHA-256.
unfoldable pub hash_key : (Text → Text) → ApiKeyConfig → Text → Text
hash_key digest config key = if config.hash_algorithm =ᵗ bytes "plain" then key else digest key

unfoldable pub hash_api_key : (Text → Text) → Text → Text
hash_api_key digest key = digest key

-- Over subtle.ConstantTimeCompare, which gives 1 for equal texts and else 0.
unfoldable pub constant_time_compare : (Text → Text → ℕ) → Text → Text → Bool
constant_time_compare compare a b = compare a b == 1

module _ {W : Type 0} (u : Unicode) (digest : Text → Text) (now : W → Instant)
    (config : ApiKeyConfig) (store : ApiKeyStore W) where
  unfoldable pub supports : AuthRequest → W → Bool
  supports req w = not (get_header req config.header_name =ᵗ [])

  -- The checks of a key's entry.
  abbrev pub check_info : Looked × W → Answer × W
  check_info (failing err, w) = (failed err, w)
  check_info (found none, w) = (result (auth_failure err_invalid_credentials (bytes "api_key")), w)
  check_info (found (some info), w) =
      if has_expired (now w) info
      then (result (auth_failure err_token_expired (bytes "api_key")), w)
      else (result (auth_success (identity_of info)), w)

  unfoldable pub authenticate : AuthRequest → W → Answer × W
  unfolding hash_key
  authenticate req w =
      let api_key = get_header req config.header_name in
      if api_key =ᵗ []
      then (result (auth_failure err_missing_credentials (bytes "api_key")), w)
      else check_info (store.lookup (hash_key digest config (trim_space u api_key)) w)

  unfoldable pub as_authenticator : Authenticator W
  as_authenticator = record {
    name = bytes "api_key";
    supports = supports;
    authenticate = authenticate;
  }
