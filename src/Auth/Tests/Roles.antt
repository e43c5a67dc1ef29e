-- ===== src/Auth/Tests/Roles.antt =====
-- What roles permit, at concrete inputs.
use toolops.Base.{◌≡◌, ◌↔◌, refl, true, none, [], ◌∷◌, arith}
use toolops.Base.Text.{Text, bytes, ◌=ᵗ◌, member}
use toolops.Base.StringMap.{lookup}
use toolops.Auth.Identity.{Identity, anonymous_identity}
use toolops.Auth.Rbac.{role_permits, authorize, collect_roles}
use toolops.Auth.Rbac.Permits.{Permits, role_permits_iff}
use toolops.Auth.Rbac.Monotone.{made_by, authorize_more}
use toolops.Auth.Tests.{caller, calling, cyclic}

role_permits_iff_example :
    (role_permits caller (calling (bytes "tool:ls")) ≡ true)
    ↔ Permits (calling (bytes "tool:ls")) caller
role_permits_iff_example = role_permits_iff (calling (bytes "tool:ls")) caller

abbrev one_role : Identity
one_role = record anonymous_identity { roles = bytes "reader" ∷ [] }

abbrev two_roles : Identity
two_roles = record anonymous_identity { roles = bytes "other" ∷ bytes "reader" ∷ [] }

still_reader : (r : Text) → member r one_role.roles ≡ true → member r two_roles.roles ≡ true
unfolding member
still_reader r h = ground (arith, h)

authorize_more_example : authorize cyclic (made_by two_roles (calling (bytes "tool:ls"))) ≡ none
unfolding authorize collect_roles role_permits lookup ◌=ᵗ◌ member
authorize_more_example =
    authorize_more cyclic one_role two_roles (calling (bytes "tool:ls")) (λ e. cc) still_reader refl
