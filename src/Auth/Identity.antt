-- ===== src/Auth/Identity.antt =====
-- auth/identity.go and auth/errors.go: an authenticated principal.
use toolops.Base.{ℕ, Bool, ◌||◌, List, [], if◌then◌else◌}
use toolops.Base.Int.{ℤ}
use toolops.Base.Time.{Instant, after, is_zero}
use toolops.Base.Text.{Text, bytes, ◌=ᵗ◌, member}
use toolops.Base.StringMap.{StringMap}

-- The sentinel errors, and any other error of a store or an authenticator.
pub data Err : Type 0 where
  err_missing_credentials err_invalid_credentials err_token_expired err_token_malformed : Err
  err_token_inactive err_introspection_failed err_key_not_found err_forbidden : Err
  other : ℕ → Err

-- A value of type `any` of a token or a configuration. A float64 is given by the int64 to which it
-- converts.
mutual
  pub data Any : Type 0 where
    nil : Any
    boolean : Bool → Any
    float : ℤ → Any
    str : Text → Any
    arr : Items → Any
    obj : Fields → Any

  pub data Items : Type 0 where
    no_items : Items
    item : Any → Items → Items

  pub data Fields : Type 0 where
    no_fields : Fields
    field : Text → Any → Fields → Fields

-- AuthMethod is a string.
abbrev pub auth_method_jwt : Text
auth_method_jwt = bytes "jwt"

abbrev pub auth_method_api_key : Text
auth_method_api_key = bytes "api_key"

abbrev pub auth_method_oauth2 : Text
auth_method_oauth2 = bytes "oauth2"

abbrev pub auth_method_anonymous : Text
auth_method_anonymous = bytes "anonymous"

pub record Identity : Type 0 where
  pub principal : Text
  pub tenant_id : Text
  pub roles : List Text
  pub permissions : List Text
  pub method : Text
  pub claims : StringMap Any
  pub expires_at : Instant
  pub issued_at : Instant

unfoldable pub has_role : Identity → Text → Bool
has_role id role = member role id.roles

unfoldable pub has_permission : Identity → Text → Bool
has_permission id perm = member perm id.permissions

unfoldable pub is_expired : Instant → Identity → Bool
is_expired now id = if is_zero id.expires_at then Bool.false else after now id.expires_at

unfoldable pub is_anonymous : Identity → Bool
is_anonymous id = id.method =ᵗ auth_method_anonymous || id.principal =ᵗ []

unfoldable pub anonymous_identity : Identity
anonymous_identity = record {
  principal = bytes "anonymous";
  tenant_id = [];
  roles = [];
  permissions = [];
  method = auth_method_anonymous;
  claims = [];
  expires_at = 0;
  issued_at = 0;
}
