-- ===== src/Auth/Rbac/Decision.antt =====
-- What Authorize decides, in terms of the roles that inheritance reaches.
use toolops.Base.{
  ◌≡◌, true, false, none, some, any, any-Memᴰ, Memᴰ-any, arith, Option-cases, inl, inr, ◌↔◌,
}
use toolops.Base.Text.{Text, member, member-Memᴰ, Memᴰ-member}
use toolops.Base.StringMap.{lookup}
use toolops.Auth.Identity.{Identity}
use toolops.Auth.Authorizer.{AuthzRequest, tool_name}
use toolops.Auth.Rbac.{
  RoleConfig, RbacConfig, start_roles, collect_roles, role_permits, match_pattern, permitted_by,
  authorize,
}
use toolops.Auth.Rbac.Reachability.{Reaches, collect_roles_iff}

module _ (config : RbacConfig) where
  -- A configured role that the subject has, directly or by inheritance, and that permits the request.
  pub record Grant (subject : Identity) (req : AuthzRequest) : Type 0 where
    pub name : Text
    pub role : RoleConfig
    pub reached : Reaches config (start_roles config subject) name
    pub configured : lookup name config.roles ≡ some role
    pub permits : role_permits role req ≡ true

  permitted_by_role :
      (req : AuthzRequest) (name : Text)
      → permitted_by config req name ≡ true
      → (role : RoleConfig) × (lookup name config.roles ≡ some role)
        × (role_permits role req ≡ true)
  unfolding permitted_by
  permitted_by_role req name h = elim (Option-cases (lookup name config.roles)) [
    | inl missing ↦ ground arith
    | inr (role, found) ↦ (role, found, ground arith)
  ]

  permitted_by_grant :
      (req : AuthzRequest) (name : Text) {role : RoleConfig}
      → lookup name config.roles ≡ some role
      → role_permits role req ≡ true
      → permitted_by config req name ≡ true
  unfolding permitted_by
  permitted_by_grant req name found permits = ground arith

  authorize_any :
      (subject : Identity) (req : AuthzRequest)
      → req.subject ≡ some subject
      → (authorize config req ≡ none)
        ↔ (any (permitted_by config req) (collect_roles config subject) ≡ true)
  unfolding authorize
  authorize_any subject req is = ground arith

  -- A request with a subject is allowed exactly when some role that the subject has, directly or by
  -- inheritance, is configured and permits it.
  pub authorize_iff :
      (subject : Identity) (req : AuthzRequest)
      → req.subject ≡ some subject
      → (authorize config req ≡ none) ↔ Grant subject req
  authorize_iff subject req is =
      let roles = collect_roles config subject in
      let (to, from) = authorize_any subject req is in
      (
        λ allowed.
            let (name, m, permitted) = any-Memᴰ (permitted_by config req) roles (to allowed) in
            let (role, found, permits) = permitted_by_role req name permitted in
            record {
              name = name;
              role = role;
              reached = (collect_roles_iff config subject name).0 (Memᴰ-member name m);
              configured = found;
              permits = permits;
            },
        λ g. from (
            Memᴰ-any (permitted_by config req)
              (member-Memᴰ g.name roles ((collect_roles_iff config subject g.name).1 g.reached))
              (permitted_by_grant req g.name g.configured g.permits)),
      )

-- A tool that a role denies is not permitted by that role, whatever else the role lists.
pub role_permits_denied :
    (role : RoleConfig) (req : AuthzRequest) (pattern : Text)
    → member pattern role.denied_tools ≡ true
    → match_pattern pattern (tool_name req) ≡ true
    → role_permits role req ≡ false
unfolding role_permits
role_permits_denied role req pattern listed matches = rw (
    Memᴰ-any (λ denied. match_pattern denied (tool_name req)) (member-Memᴰ pattern _ listed)
      matches)
