-- ===== src/Auth/Tests.antt =====
-- The theorems of package auth at concrete inputs.
pub mod Tokens
pub mod Configured
pub mod Roles
pub mod Keys
use toolops.Base.{List, ℕ, ◌≡◌, refl, ◌↔◌, ◌+◌, true, false, none, some, [], ◌∷◌, length}
use toolops.Base.Text.{Text, bytes, ◌=ᵗ◌, member}
use toolops.Base.StringMap.{lookup}
use toolops.Base.Unicode.{Unicode}
use toolops.Base.World.{Cell}
use toolops.Auth.Identity.{anonymous_identity, err_invalid_credentials}
use toolops.Auth.Authorizer.{AuthzRequest, tool_name}
use toolops.Auth.Authenticator.{
  AuthRequest, Authenticator, result, auth_success, auth_failure, get_header,
}
use toolops.Auth.Rbac.{
  RoleConfig, RbacConfig, collect_roles, start_roles, pending, rounds, begin, authorize,
  role_permits, match_pattern,
}
use toolops.Auth.Rbac.Collection.{collect_roles_ends}
use toolops.Auth.Rbac.Reachability.{Reaches, collect_roles_iff}
use toolops.Auth.Rbac.Decision.{Grant, authorize_iff, role_permits_denied}
use toolops.Auth.Composite.{CompositeAuthenticator, new_composite_authenticator, missing, attempts}
use toolops.Auth.Composite
use toolops.Auth.Composite.Sources.{GaveIn, HasSource, authenticate-HasSource, authenticate_success}
use toolops.Auth.Composite.Modes.{authenticate_modes}
use toolops.Auth.ApiKey
use toolops.Auth.ApiKey.{
  ApiKeyConfig, ApiKeyInfo, MemoryApiKeyStore, as_store, identity_of, has_expired,
}
use toolops.Auth.ApiKey.Registry.{Edit, added, removed, store_of}
use toolops.Auth.ApiKey.Acceptance.{IsAccepted, IsIdentityOf, authenticate_iff}

abbrev pub plain_role : RoleConfig
plain_role = record {
  permissions = [];
  inherits = [];
  allowed_tools = [];
  denied_tools = [];
  allowed_actions = [];
}

-- Two roles that inherit each other; the second lets its holders call every tool but those of `rm`.
abbrev pub reader : RoleConfig
reader = record plain_role { inherits = bytes "caller" ∷ [] }

abbrev pub caller : RoleConfig
caller = record plain_role {
  inherits = bytes "reader" ∷ [];
  permissions = bytes "tool:*:call" ∷ [];
  denied_tools = bytes "rm*" ∷ [];
}

abbrev pub cyclic : RbacConfig
cyclic = record {
  roles = (bytes "reader", reader) ∷ (bytes "caller", caller) ∷ [];
  default_role = bytes "reader";
}

abbrev pub calling : Text → AuthzRequest
calling tool = record {
  subject = some anonymous_identity;
  resource = tool;
  action = bytes "call";
  resource_type = bytes "tool";
}

collect_roles_ends_example :
    (rounds cyclic
      (length (start_roles cyclic anonymous_identity) + pending [] cyclic.roles)
      (begin cyclic anonymous_identity)).roles_to_process
    ≡ []
collect_roles_ends_example = collect_roles_ends cyclic anonymous_identity

collect_roles_iff_example :
    (member (bytes "caller") (collect_roles cyclic anonymous_identity) ≡ true)
    ↔ Reaches cyclic (start_roles cyclic anonymous_identity) (bytes "caller")
collect_roles_iff_example = collect_roles_iff cyclic anonymous_identity (bytes "caller")

authorize_iff_example :
    (authorize cyclic (calling (bytes "tool:ls")) ≡ none)
    ↔ Grant cyclic anonymous_identity (calling (bytes "tool:ls"))
authorize_iff_example = authorize_iff cyclic anonymous_identity (calling (bytes "tool:ls")) refl

-- Two authenticators that take any request: one refuses, one accepts.
abbrev refusing : Authenticator ℕ
refusing = record {
  name = bytes "refusing";
  supports = λ req w. true;
  authenticate = λ req w. (result (auth_failure err_invalid_credentials (bytes "refusing")), w);
}

abbrev accepting : Authenticator ℕ
accepting = record {
  name = bytes "accepting";
  supports = λ req w. true;
  authenticate = λ req w. (result (auth_success anonymous_identity), w);
}

abbrev both : CompositeAuthenticator ℕ
both = record { authenticators = refusing ∷ accepting ∷ []; stop_on_first = true }

abbrev with_key : AuthRequest
with_key = record {
  headers = some ((bytes "X-API-Key", bytes "secret" ∷ []) ∷ []);
  resource = [];
  metadata = [];
}

authenticate-HasSource_example :
    HasSource with_key true both.authenticators (Composite.authenticate both with_key 0)
authenticate-HasSource_example = authenticate-HasSource both with_key 0

authenticate_modes_example :
    Composite.authenticate (record both { stop_on_first = true }) with_key 0
    ≡ Composite.authenticate (record both { stop_on_first = false }) with_key 0
authenticate_modes_example = authenticate_modes (refusing ∷ accepting ∷ []) with_key 0 (
  record { answer = auth_failure err_invalid_credentials (bytes "refusing"); answers = refl },
  (record { answer = auth_success anonymous_identity; answers = refl }, tt),
)

abbrev ascii_only : Unicode
ascii_only = record { lower = λ s. s; trim = λ s. s; trim_right = λ s. s }

abbrev plain_keys : ApiKeyConfig
plain_keys = record { header_name = bytes "X-API-Key"; hash_algorithm = bytes "plain" }

abbrev alice : ApiKeyInfo
alice = record {
  id = bytes "k1";
  key_hash = bytes "secret";
  principal = bytes "alice";
  tenant_id = [];
  roles = [];
  expires_at = 100;
  metadata = [];
}

abbrev whole_world : Cell MemoryApiKeyStore MemoryApiKeyStore
whole_world = record { get = λ w. w; put = λ s w. s; get-put = λ s w. refl }

-- A key that was added, and another that was added and removed.
abbrev key_calls : List Edit
key_calls =
    removed (bytes "old") ∷ added alice ∷ added (record alice { key_hash = bytes "old" }) ∷ []

authenticate_iff_example :
    (ApiKey.authenticate ascii_only
        (λ s. s)
        (λ w. 7)
        plain_keys
        (as_store whole_world)
        with_key
        (store_of key_calls)
      ≡ (result (auth_success (identity_of alice)), store_of key_calls))
    ↔ ((info : ApiKeyInfo) × IsAccepted ascii_only (λ s. s) plain_keys key_calls 7 with_key info
        × IsIdentityOf info (identity_of alice))
authenticate_iff_example =
    authenticate_iff ascii_only (λ s. s) plain_keys (λ w. 7) whole_world key_calls with_key
      (store_of key_calls) (identity_of alice) refl
