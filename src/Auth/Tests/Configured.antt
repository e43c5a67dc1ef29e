-- ===== src/Auth/Tests/Configured.antt =====
-- The theorems on the registry of package auth at concrete inputs.
use toolops.Base.{ℕ, ◌≡◌, none, [], ◌∷◌, inr}
use toolops.Base.Text.{bytes}
use toolops.Auth.Rbac.{RbacConfig, new_simple_rbac_authorizer}
use toolops.Auth.Registry.{Registry, create_authorizer}
use toolops.Auth.Factory.{default_registry}
use toolops.Auth.Factory.RoundTrip.{any_rbac, create_authorizer-default_registry}

abbrev one_factory : Registry ℕ ℕ
one_factory = record { authenticators = (bytes "a", λ cfg. inr 1) ∷ []; authorizers = [] }

abbrev callers : RbacConfig
callers = record {
  roles =
      (
        bytes "caller",
        record {
          permissions = bytes "tool:*:call" ∷ [];
          inherits = bytes "reader" ∷ [];
          allowed_tools = [];
          denied_tools = bytes "rm*" ∷ [];
          allowed_actions = [];
        },
      )
      ∷ [];
  default_role = bytes "caller";
}

create_authorizer-default_registry_example :
    create_authorizer (bytes "simple_rbac") (any_rbac callers) (default_registry (λ s. none))
    ≡ inr (new_simple_rbac_authorizer callers)
create_authorizer-default_registry_example = create_authorizer-default_registry (λ s. none) callers
