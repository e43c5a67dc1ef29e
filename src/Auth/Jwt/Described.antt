-- ===== src/Auth/Jwt/Described.antt =====
-- The identity that a token's claims describe.
use toolops.Base.{◌≡◌, ap, ◌↔◌, [], if◌then◌else◌}
use toolops.Base.Text.{bytes, ◌=ᵗ◌}
use toolops.Base.StringMap.{lookup}
use toolops.Auth.Identity.{Identity}
use toolops.Auth.Claims.{Claims, string_at, strings_at}
use toolops.Auth.Jwt.{JwtConfig, build_identity}
use toolops.Auth.Claims.Reading.{
  IfNamed, named_iff, IsText, IsTexts, IsTime, text_of, text_of_iff, texts_of, texts_of_iff,
  time_at_iff,
}

pub record IsIdentityOf (config : JwtConfig) (claims : Claims) (identity : Identity) : Type 0 where
  pub principal : IsText (lookup config.principal_claim claims) identity.principal
  pub tenant_id :
      IfNamed config.tenant_claim identity.tenant_id []
        (IsText (lookup config.tenant_claim claims) identity.tenant_id)
  pub roles :
      IfNamed config.roles_claim identity.roles []
        (IsTexts (lookup config.roles_claim claims) identity.roles)
  pub permissions : identity.permissions ≡ []
  pub method : identity.method ≡ bytes "jwt"
  pub claims_kept : identity.claims ≡ claims
  pub expires_at : IsTime (lookup (bytes "exp") claims) identity.expires_at
  pub issued_at : IsTime (lookup (bytes "iat") claims) identity.issued_at

module _ (config : JwtConfig) (claims : Claims) (identity : Identity) where
  principal_iff :
      (identity.principal ≡ text_of (lookup config.principal_claim claims))
      ↔ IsText (lookup config.principal_claim claims) identity.principal
  principal_iff = text_of_iff _ identity.principal

  tenant_id_iff :
      (identity.tenant_id
        ≡ (if config.tenant_claim =ᵗ [] then [] else text_of (lookup config.tenant_claim claims)))
      ↔ IfNamed config.tenant_claim identity.tenant_id []
          (IsText (lookup config.tenant_claim claims) identity.tenant_id)
  tenant_id_iff =
      named_iff config.tenant_claim identity.tenant_id [] _ (text_of_iff _ identity.tenant_id)

  roles_iff :
      (identity.roles
        ≡ (if config.roles_claim =ᵗ [] then [] else texts_of (lookup config.roles_claim claims)))
      ↔ IfNamed config.roles_claim identity.roles []
          (IsTexts (lookup config.roles_claim claims) identity.roles)
  roles_iff = named_iff config.roles_claim identity.roles [] _ (texts_of_iff _ identity.roles)

  pub build_identity_iff :
      (identity ≡ build_identity config claims) ↔ IsIdentityOf config claims identity
  unfolding build_identity string_at strings_at
  build_identity_iff = (
    λ e. record {
      principal = principal_iff.0 (ap (λ (i : Identity). i.principal) e);
      tenant_id = tenant_id_iff.0 (ap (λ (i : Identity). i.tenant_id) e);
      roles = roles_iff.0 (ap (λ (i : Identity). i.roles) e);
      permissions = ap (λ (i : Identity). i.permissions) e;
      method = ap (λ (i : Identity). i.method) e;
      claims_kept = ap (λ (i : Identity). i.claims) e;
      expires_at = (time_at_iff _ identity.expires_at).0 (ap (λ (i : Identity). i.expires_at) e);
      issued_at = (time_at_iff _ identity.issued_at).0 (ap (λ (i : Identity). i.issued_at) e);
    },
    λ is i. record {
      principal = principal_iff.1 is.principal i;
      tenant_id = tenant_id_iff.1 is.tenant_id i;
      roles = roles_iff.1 is.roles i;
      permissions = is.permissions i;
      method = is.method i;
      claims = is.claims_kept i;
      expires_at =
          (time_at_iff (lookup (bytes "exp") claims) identity.expires_at).1 is.expires_at i;
      issued_at = (time_at_iff (lookup (bytes "iat") claims) identity.issued_at).1 is.issued_at i;
    },
  )
