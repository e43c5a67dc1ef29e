-- ===== src/Auth/Factory/RoundTrip.antt =====
-- Configurations written as values of type `any`, and what the default registry makes of them.
use toolops.Base.{◌≡◌, refl, ap, Option, some, List, [], ◌∷◌, inr}
use toolops.Base.Time.{Duration}
use toolops.Base.Text.{Text, bytes, ◌=ᵗ◌}
use toolops.Base.StringMap.{StringMap, lookup, insert}
use toolops.Auth.Identity.{Any, str, arr, obj, Items, no_items, item, Fields, no_fields, field}
use toolops.Auth.Claims.{Claims, as_map, fields_of, string_at, strings_at, strings_of}
use toolops.Auth.Rbac.{RoleConfig, RbacConfig, new_simple_rbac_authorizer}
use toolops.Auth.Registry.{
  create, register, register_authenticator, register_authorizer, create_authorizer, new_registry,
}
use toolops.Auth.Factory.{role_config_of, roles_of, rbac_config_of, default_registry}

abbrev any_strings : List Text → Items
any_strings [] = no_items
any_strings (s ∷ ss) = item (str s) (any_strings ss)

abbrev pub any_role : RoleConfig → Any
any_role role = obj (
    field (bytes "permissions") (arr (any_strings role.permissions)) (
      field (bytes "inherits") (arr (any_strings role.inherits)) (
        field (bytes "allowed_tools") (arr (any_strings role.allowed_tools)) (
          field (bytes "denied_tools") (arr (any_strings role.denied_tools))
            (field (bytes "allowed_actions") (arr (any_strings role.allowed_actions)) no_fields)))))

abbrev any_roles : StringMap RoleConfig → Fields
any_roles [] = no_fields
any_roles ((name, role) ∷ roles) = field name (any_role role) (any_roles roles)

-- The `map[string]any` that says the same as an RbacConfig.
abbrev pub any_rbac : RbacConfig → Claims
any_rbac config =
    (bytes "roles", obj (any_roles config.roles))
    ∷ (bytes "default_role", str config.default_role)
    ∷ []

strings_of-any_strings : (ss : List Text) → strings_of (any_strings ss) ≡ ss
unfolding strings_of
strings_of-any_strings [] = refl
strings_of-any_strings (s ∷ ss) = ap (λ rest. s ∷ rest) (strings_of-any_strings ss)

role_config_of-any_role :
    (role : RoleConfig) → role_config_of (as_map (some (any_role role))) ≡ role
unfolding role_config_of as_map strings_at lookup ◌=ᵗ◌ fields_of
role_config_of-any_role role = λ i. record {
  permissions = strings_of-any_strings role.permissions i;
  inherits = strings_of-any_strings role.inherits i;
  allowed_tools = strings_of-any_strings role.allowed_tools i;
  denied_tools = strings_of-any_strings role.denied_tools i;
  allowed_actions = strings_of-any_strings role.allowed_actions i;
}

roles_of-any_roles :
    (roles : StringMap RoleConfig) → roles_of (as_map (some (obj (any_roles roles)))) ≡ roles
unfolding roles_of as_map fields_of
roles_of-any_roles [] = refl
roles_of-any_roles ((name, role) ∷ roles) =
    λ i. (name, role_config_of-any_role role i) ∷ roles_of-any_roles roles i

rbac_config_of-any_rbac : (config : RbacConfig) → rbac_config_of (any_rbac config) ≡ config
unfolding rbac_config_of string_at lookup ◌=ᵗ◌
rbac_config_of-any_rbac config =
    λ i. record { roles = roles_of-any_roles config.roles i; default_role = config.default_role }

-- From the `any` values of an RbacConfig, whatever its roles, the default registry's factory `simple_rbac`
-- makes the authorizer of just that configuration.
pub create_authorizer-default_registry :
    (parse : Text → Option Duration) (config : RbacConfig)
    → create_authorizer (bytes "simple_rbac") (any_rbac config) (default_registry parse)
      ≡ inr (new_simple_rbac_authorizer config)
unfolding create_authorizer create default_registry new_registry register_authenticator
    register_authorizer register lookup insert ◌=ᵗ◌
create_authorizer-default_registry parse config =
    ap (λ c. inr (new_simple_rbac_authorizer c)) (rbac_config_of-any_rbac config)
