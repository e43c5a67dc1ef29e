-- ===== src/Auth/Rbac/Monotone.antt =====
-- Further roles of a subject.
use toolops.Base.{
  ◌≡◌, ◌≢◌, refl, ap, sym, ◌∙◌, subst, Bool, true, false, none, some, List, [], ◌∷◌, is_empty,
  arith, any,
}
use toolops.Base.Text.{Text, =ᵗ_iff, member, split_byte}
use toolops.Auth.Identity.{Identity}
use toolops.Auth.Authorizer.{AuthzRequest, tool_name}
use toolops.Auth.Rbac.{
  RoleConfig, RbacConfig, start_roles, match_pattern, match_action, match_parts, match_permission,
  role_permits, authorize,
}
use toolops.Auth.Rbac.Permits.{decided, role_permits-decided}
use toolops.Auth.Rbac.Reachability.{Reaches, given, inherits}
use toolops.Auth.Rbac.Decision.{authorize_iff}

-- The request made by another subject.
abbrev pub made_by : Identity → AuthzRequest → AuthzRequest
made_by subject req = record req { subject = some subject }

any_same : (p q : Text → Bool) (xs : List Text) → ((x : Text) → p x ≡ q x) → any p xs ≡ any q xs
any_same p q [] same = refl
any_same p q (x ∷ xs) same = ground (arith, same x, any_same p q xs same)

module _ (req : AuthzRequest) (s t : Identity) where
  match_parts-made_by :
      (parts : List Text) → match_parts parts (made_by s req) ≡ match_parts parts (made_by t req)
  unfolding match_parts
  match_parts-made_by [] = refl
  match_parts-made_by (a ∷ []) = refl
  match_parts-made_by (a ∷ b ∷ []) = refl
  match_parts-made_by (a ∷ b ∷ c ∷ []) = refl
  match_parts-made_by (a ∷ b ∷ c ∷ d ∷ parts) = refl

  match_permission-made_by :
      (perm : Text) → match_permission perm (made_by s req) ≡ match_permission perm (made_by t req)
  unfolding match_permission
  match_permission-made_by perm = match_parts-made_by (split_byte b':' perm)

  -- Who asks is no matter to a role.
  role_permits-made_by :
      (role : RoleConfig) → role_permits role (made_by s req) ≡ role_permits role (made_by t req)
  unfolding tool_name
  role_permits-made_by role =
      role_permits-decided (made_by s req) role
      ∙ ap
          (decided (any (λ p. match_pattern p (tool_name req)) role.denied_tools) role.allowed_tools
            (any (λ p. match_pattern p (tool_name req)) role.allowed_tools) role.allowed_actions
            (any (λ a. match_action a req) role.allowed_actions))
          (any_same (λ p. match_permission p (made_by s req))
            (λ p. match_permission p (made_by t req)) role.permissions match_permission-made_by)
      ∙ sym (role_permits-decided (made_by t req) role)

some_member : (xs : List Text) → xs ≢ [] → (x : Text) × (member x xs ≡ true)
unfolding member
some_member [] full = absurd (full refl)
some_member (x ∷ xs) full = (x, ground (arith, =ᵗ_iff x x))

full-is_empty : (xs : List Text) → xs ≢ [] → is_empty xs ≡ false
full-is_empty [] full = absurd (full refl)
full-is_empty (x ∷ xs) full = refl

module _ (config : RbacConfig) where
  more-Reaches :
      (start more : List Text) (r : Text)
      → ((x : Text) → member x start ≡ true → member x more ≡ true)
      → Reaches config start r
      → Reaches config more r
  more-Reaches start more r wider (given _ h) = given r (wider r h)
  more-Reaches start more r wider (inherits s _ reached h) =
      inherits s r (more-Reaches start more s wider reached) h

  start_roles_full :
      (subject : Identity) → subject.roles ≢ [] → start_roles config subject ≡ subject.roles
  unfolding start_roles
  start_roles_full subject full =
      let some_role : is_empty subject.roles ≡ false = full-is_empty subject.roles full in
      ground (arith, some_role)

  -- A subject that has a role loses nothing by further roles: what it may do with its roles, it may do with
  -- more, whatever they deny.
  pub authorize_more :
      (subject wider : Identity) (req : AuthzRequest)
      → subject.roles ≢ []
      → ((r : Text) → member r subject.roles ≡ true → member r wider.roles ≡ true)
      → authorize config (made_by subject req) ≡ none
      → authorize config (made_by wider req) ≡ none
  unfolding member
  authorize_more subject wider req full more allowed =
      let g = (authorize_iff config subject (made_by subject req) refl).0 allowed in
      let (r, has) = some_member subject.roles full in
      let full' : wider.roles ≢ [] =
        λ none_left. absurd (ground (arith, ap (member r) none_left, more r has)) in
      (authorize_iff config wider (made_by wider req) refl).1 (record {
        name = g.name;
        role = g.role;
        reached =
            subst (λ start. Reaches config start g.name) (sym (start_roles_full wider full'))
              (more-Reaches subject.roles wider.roles g.name more (
                subst (λ start. Reaches config start g.name) (start_roles_full subject full)
                  g.reached));
        configured = g.configured;
        permits = role_permits-made_by req wider subject g.role ∙ g.permits;
      })
