-- ===== src/Auth/Rbac/Permits.antt =====
-- What a permission grants and a role permits, told without the functions that decide it.
use toolops.Base.{
  ◌≡◌, ◌≢◌, refl, ap, sym, ◌∙◌, ◌⊎◌, inl, inr, ◌↔◌, Bool, true, false, ◌||◌, ◌&&◌, not, List, [],
  ◌∷◌, All, any, arith, is_empty,
}
use toolops.Base.Text.{Text, has_byte, split_byte}
use toolops.Base.Text.Split.{
  join_byte, join_byte-split_byte, split_byte_lacks, split_byte-join_byte,
}
use toolops.Auth.Authorizer.{AuthzRequest, tool_name}
use toolops.Auth.Rbac.{
  RoleConfig, match_pattern, match_action, match_parts, match_permission, role_permits,
}
use toolops.Auth.Rbac.Patterns.{
  Matches, match_pattern_iff, Some, any_iff, IsAction, AreParts, Grants, either_iff,
  match_resource_iff,
}

both_iff :
    {P Q : Type 0} (a b : Bool) → (a ≡ true) ↔ P → (b ≡ true) ↔ Q → ((a && b) ≡ true) ↔ (P × Q)
both_iff a b is_p is_q = (
  λ h. (is_p.0 (ground (arith, h)), is_q.0 (ground (arith, h))),
  λ (p, q). ground (arith, is_p.1 p, is_q.1 q),
)

or_iff : {P Q : Type 0} (a b : Bool) → (a ≡ true) ↔ P → (b ≡ true) ↔ Q → ((a || b) ≡ true) ↔ (P ⊎ Q)
or_iff true b is_p is_q = (λ h. inl (is_p.0 refl), λ e. refl)
or_iff false b is_p is_q = (
  λ h. inr (is_q.0 h),
  λ e. elim e [ inl p ↦ absurd (ground (arith, is_p.1 p)) | inr q ↦ is_q.1 q ],
)

not_iff : {P : Type 0} (a : Bool) → (a ≡ true) ↔ P → (not a ≡ true) ↔ (¬ P)
not_iff true is_p = (λ h. cc, λ none_p. absurd (none_p (is_p.0 refl)))
not_iff false is_p = (λ h. λ p. absurd (ground (arith, is_p.1 p)), λ none_p. refl)

-- The decision on the answers of the four loops.
pub decided : Bool → List Text → Bool → List Text → Bool → Bool → Bool
decided denied tools tool actions action perm =
    not denied
    && (is_empty tools || tool)
    && (is_empty actions || action)
    && (perm || not (is_empty tools))

module _ (req : AuthzRequest) where
  match_parts_iff : (parts : List Text) → (match_parts parts req ≡ true) ↔ AreParts req parts
  unfolding match_parts
  match_parts_iff [] = (λ h. cc, λ e. absurd e)
  match_parts_iff (action ∷ []) = either_iff req action req.action
  match_parts_iff (resource ∷ action ∷ []) =
      both_iff _ _ (match_resource_iff req resource) (either_iff req action req.action)
  match_parts_iff (resource_type ∷ resource ∷ action ∷ []) =
      let all =
        both_iff _ _
          (both_iff _ _ (either_iff req resource_type req.resource_type)
            (match_resource_iff req resource))
          (either_iff req action req.action) in
      (λ h. let ((t, r), a) = all.0 h in (t, r, a), λ (t, r, a). all.1 ((t, r), a))
  match_parts_iff (a ∷ b ∷ c ∷ d ∷ parts) = (λ h. cc, λ e. absurd e)

  from_parts :
      (perm : Text) (parts : List Text)
      → perm ≡ join_byte b':' parts
      → All (λ part. has_byte b':' part ≡ false) parts
      → AreParts req parts
      → match_permission perm req ≡ true
  unfolding match_permission
  from_parts perm [] is lacks granted = absurd granted
  from_parts perm (part ∷ parts) is lacks granted =
      ap (λ p. match_parts (split_byte b':' p) req) is
      ∙ ap (λ ps. match_parts ps req) (split_byte-join_byte b':' part parts lacks)
      ∙ (match_parts_iff (part ∷ parts)).1 granted

  -- A permission matches exactly the requests whose action it names, or whose resource and action, or whose
  -- type, resource and action, split at its colons; `*` names any.
  pub match_permission_iff : (perm : Text) → (match_permission perm req ≡ true) ↔ Grants req perm
  unfolding match_permission
  match_permission_iff perm = (
    λ h. record {
      parts = split_byte b':' perm;
      is_perm = sym (join_byte-split_byte b':' perm);
      lacks = split_byte_lacks b':' perm;
      granted = (match_parts_iff (split_byte b':' perm)).0 h;
    },
    λ g. from_parts perm g.parts g.is_perm g.lacks g.granted,
  )

  -- No denied pattern matches the tool; an allowed one does, and an allowed action, where there are any; and
  -- a permission grants the request, or else the tool had to be allowed.
  pub record Permits (role : RoleConfig) : Type 0 where
    pub not_denied : ¬ Some (λ pattern. Matches pattern (tool_name req)) role.denied_tools
    pub tool :
        (role.allowed_tools ≡ [])
        ⊎ Some (λ pattern. Matches pattern (tool_name req)) role.allowed_tools
    pub action : (role.allowed_actions ≡ []) ⊎ Some (IsAction req) role.allowed_actions
    pub granted : Some (Grants req) role.permissions ⊎ (role.allowed_tools ≢ [])

  pub role_permits-decided :
      (role : RoleConfig)
      → role_permits role req
        ≡ decided
            (any (λ p. match_pattern p (tool_name req)) role.denied_tools)
            role.allowed_tools
            (any (λ p. match_pattern p (tool_name req)) role.allowed_tools)
            role.allowed_actions
            (any (λ a. match_action a req) role.allowed_actions)
            (any (λ p. match_permission p req) role.permissions)
  unfolding role_permits decided
  role_permits-decided role = ground arith

  is_empty_iff : (xs : List Text) → (is_empty xs ≡ true) ↔ (xs ≡ [])
  is_empty_iff [] = (λ h. refl, λ e. refl)
  is_empty_iff (x ∷ xs) = (λ h. cc, λ e. cc)

  -- A role permits exactly the requests of which the rules on denied tools, allowed tools, allowed actions
  -- and permissions hold together.
  pub role_permits_iff : (role : RoleConfig) → (role_permits role req ≡ true) ↔ Permits role
  unfolding decided
  role_permits_iff role =
      let tool_test : Text → Bool = λ p. match_pattern p (tool_name req) in
      let tool_rule : Text → Type 0 = λ p. Matches p (tool_name req) in
      let on_tool : (x : Text) → (tool_test x ≡ true) ↔ tool_rule x =
        λ x. match_pattern_iff x (tool_name req) in
      let denied = any_iff tool_test tool_rule role.denied_tools on_tool in
      let tools = any_iff tool_test tool_rule role.allowed_tools on_tool in
      let actions =
        any_iff (λ a. match_action a req) (IsAction req) role.allowed_actions
          (λ a. either_iff req a req.action) in
      let perms =
        any_iff (λ p. match_permission p req) (Grants req) role.permissions match_permission_iff in
      let all =
        both_iff _ _
          (both_iff _ _
            (both_iff _ _ (not_iff _ denied) (or_iff _ _ (is_empty_iff role.allowed_tools) tools))
            (or_iff _ _ (is_empty_iff role.allowed_actions) actions))
          (or_iff _ _ perms (not_iff _ (is_empty_iff role.allowed_tools))) in
      (
        λ h.
            let (((d, t), a), g) = all.0 (sym (role_permits-decided role) ∙ h) in
            record { not_denied = d; tool = t; action = a; granted = g },
        λ p. role_permits-decided role ∙ all.1 (((p.not_denied, p.tool), p.action), p.granted),
      )
