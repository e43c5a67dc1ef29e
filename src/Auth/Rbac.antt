-- ===== src/Auth/Rbac.antt =====
-- auth/rbac.go: role-based access control with inherited roles.
pub mod Collection
pub mod Reachability
pub mod Decision
pub mod Patterns
pub mod Permits
pub mod Monotone
use toolops.Base.{
  ℕ, zero, suc, ◌+◌, ◌≡◌, Bool, true, false, not, ◌&&◌, ◌||◌, Option, none, some, List, [], ◌∷◌,
  ◌++◌, length, any, is_empty, if◌then◌else◌,
}
use toolops.Base.Text.{Text, bytes, ◌=ᵗ◌, member, has_prefix, cut_suffix, split_byte}
use toolops.Base.StringMap.{StringMap, lookup}
use toolops.Auth.Identity.{Identity}
use toolops.Auth.Authorizer.{AuthzRequest, AuthzError, Authorizer, tool_name}

pub record RoleConfig : Type 0 where
  pub permissions : List Text
  pub inherits : List Text
  pub allowed_tools : List Text
  pub denied_tools : List Text
  pub allowed_actions : List Text

pub record RbacConfig : Type 0 where
  pub roles : StringMap RoleConfig
  pub default_role : Text

-- The variables of the loop in collectRoles.
pub record Work : Type 0 where
  pub roles_to_process : List Text
  pub seen : List Text
  pub result : List Text

-- The inherited roles that are appended to the queue.
pub unseen : List Text → List Text → List Text
unseen seen [] = []
unseen seen (r ∷ rs) = if member r seen then unseen seen rs else r ∷ unseen seen rs

abbrev pub inherited : Option RoleConfig → List Text
inherited none = []
inherited (some role) = role.inherits

-- How many roles the configured roles inherit, those of `seen` left out.
pub pending : List Text → StringMap RoleConfig → ℕ
pending seen [] = 0
pending seen ((name, role) ∷ roles) =
    (if member name seen then 0 else length role.inherits) + pending seen roles

module _ (config : RbacConfig) where
  -- The body of the loop: `current` has left the queue.
  pub visit : Text → Work → Work
  unfolding unseen
  visit current w = if member current w.seen then w else record {
    roles_to_process =
        w.roles_to_process ++ unseen (current ∷ w.seen) (inherited (lookup current config.roles));
    seen = current ∷ w.seen;
    result = w.result ++ current ∷ [];
  }

  abbrev pub next_round : List Text → Work → Work
  next_round [] w = w
  next_round (current ∷ queue) w = visit current (record w { roles_to_process = queue })

  -- The loop; a round with an empty queue changes nothing.
  pub rounds : ℕ → Work → Work
  unfolding visit
  rounds zero w = w
  rounds (suc fuel) w = rounds fuel (next_round w.roles_to_process w)

  pub start_roles : Identity → List Text
  start_roles subject =
      if is_empty subject.roles && not (config.default_role =ᵗ [])
      then config.default_role ∷ []
      else subject.roles

  abbrev pub begin : Identity → Work
  begin subject = record { roles_to_process = start_roles subject; seen = []; result = [] }

  unfoldable pub collect_roles : Identity → List Text
  unfolding rounds start_roles pending
  collect_roles subject =
      (rounds (length (start_roles subject) + pending [] config.roles) (begin subject)).result

-- A pattern is exact, or ends in `*` and is a prefix.
unfoldable pub match_pattern : Text → Text → Bool
match_pattern pattern value =
    if pattern =ᵗ bytes "*" then true else elim (cut_suffix (bytes "*") pattern) [
      | some prefix ↦ has_prefix prefix value
      | none ↦ pattern =ᵗ value
    ]

abbrev match_action : Text → AuthzRequest → Bool
match_action action req = action =ᵗ bytes "*" || action =ᵗ req.action

pub match_resource : Text → AuthzRequest → Bool
unfolding match_pattern tool_name
match_resource resource req =
    resource =ᵗ bytes "*" || resource =ᵗ req.resource || match_pattern resource (tool_name req)

match_parts : List Text → AuthzRequest → Bool
unfolding match_resource
match_parts (action ∷ []) req = match_action action req
match_parts (resource ∷ action ∷ []) req = match_resource resource req && match_action action req
match_parts (resource_type ∷ resource ∷ action ∷ []) req =
    (resource_type =ᵗ bytes "*" || resource_type =ᵗ req.resource_type)
    && match_resource resource req
    && match_action action req
match_parts _ req = false

unfoldable pub match_permission : Text → AuthzRequest → Bool
unfolding match_parts split_byte
match_permission perm req = match_parts (split_byte b':' perm) req

unfoldable pub role_permits : RoleConfig → AuthzRequest → Bool
unfolding match_pattern match_permission tool_name
role_permits role req =
    if any (λ denied. match_pattern denied (tool_name req)) role.denied_tools
    then false
    else if not (is_empty role.allowed_tools)
        && not (any (λ tool. match_pattern tool (tool_name req)) role.allowed_tools)
    then false
    else if not (is_empty role.allowed_actions)
        && not (any (λ action. match_action action req) role.allowed_actions)
    then false
    else if any (λ perm. match_permission perm req) role.permissions
    then true
    else not (is_empty role.allowed_tools)

module _ (config : RbacConfig) where
  -- Whether a collected role is configured and permits the request.
  pub permitted_by : AuthzRequest → Text → Bool
  permitted_by req name = elim (lookup name config.roles) [
    | some role ↦ role_permits role req
    | none ↦ false
  ]

  abbrev denied : Text → AuthzRequest → Text → AuthzError
  denied subject req reason = record {
    subject = subject;
    resource = req.resource;
    action = req.action;
    reason = reason;
    cause = none;
  }

  authorize_subject : Option Identity → AuthzRequest → Option AuthzError
  unfolding permitted_by
  authorize_subject none req = some (denied [] req (bytes "no identity provided"))
  authorize_subject (some subject) req =
      if any (permitted_by req) (collect_roles config subject)
      then none
      else some (denied subject.principal req (bytes "no role permits this action"))

  unfoldable pub authorize : AuthzRequest → Option AuthzError
  unfolding authorize_subject
  authorize req = authorize_subject req.subject req

-- NewSimpleRBACAuthorizer
unfoldable pub new_simple_rbac_authorizer : RbacConfig → Authorizer
new_simple_rbac_authorizer config = record {
  name = bytes "simple_rbac";
  authorize = authorize config;
}
