-- ===== src/Auth/Introspection/Described.antt =====
-- The identity that the endpoint's reply describes.
use toolops.Base.{
  ◌≡◌, ◌≢◌, refl, sym, ap, ◌∙◌, ◌↔◌, Option, some, [], arith, if◌then◌else◌, suc, zero, subst, ℕ,
}
use toolops.Base.Int.{pos, negsuc}
use toolops.Base.Time.{Instant, unix}
use toolops.Base.Text.{Text, bytes, ◌=ᵗ◌, split_byte}
use toolops.Base.StringMap.{lookup}
use toolops.Auth.Identity.{Identity, Any, float}
use toolops.Auth.Claims.{Claims, string_at, strings_at, as_seconds}
use toolops.Auth.Claims.Reading.{
  IsText, IsTexts, IfNamed, named_iff, text_of_iff, texts_of, texts_of_iff,
}
use toolops.Auth.Introspection.{
  Oauth2Config, read_response, build_identity, positive_time, or_zero, scopes_of, claim,
}

-- An instant after the Unix epoch, and the zero Time for anything else.
pub data IsAfterEpoch : Option Any → Instant → Type 0 where
  after_epoch : {n : ℕ} → IsAfterEpoch (some (float (pos (suc n)))) (unix (pos (suc n)))
  unset : {v : Option Any} → ((n : ℕ) → v ≢ some (float (pos (suc n)))) → IsAfterEpoch v 0

abbrev instant_of : Option Any → Instant
instant_of v = positive_time (or_zero (as_seconds v))

positive_time-suc : (n : ℕ) → positive_time (pos (suc n)) ≡ unix (pos (suc n))
positive_time-suc n = ground arith

positive_time-negsuc : (m : ℕ) → positive_time (negsuc m) ≡ 0
positive_time-negsuc m = ground arith

instant_of-IsAfterEpoch : (v : Option Any) → IsAfterEpoch v (instant_of v)
instant_of-IsAfterEpoch (some (float (pos (suc n)))) =
    subst (IsAfterEpoch (some (float (pos (suc n))))) (sym (positive_time-suc n)) after_epoch
instant_of-IsAfterEpoch (some (float (pos zero))) = unset (λ n e. ground (arith, e))
instant_of-IsAfterEpoch (some (float (negsuc m))) =
    subst (IsAfterEpoch (some (float (negsuc m)))) (sym (positive_time-negsuc m))
      (unset (λ n e. ground (arith, e)))
instant_of-IsAfterEpoch _ = unset (λ n e. cc)

IsAfterEpoch-instant_of : (v : Option Any) (t : Instant) → IsAfterEpoch v t → t ≡ instant_of v
IsAfterEpoch-instant_of (some (float (pos (suc n)))) t after_epoch = sym (positive_time-suc n)
IsAfterEpoch-instant_of (some (float (pos (suc n)))) t (unset away) = absurd (away n refl)
IsAfterEpoch-instant_of (some (float (pos zero))) t (unset away) = refl
IsAfterEpoch-instant_of (some (float (negsuc m))) t (unset away) = sym (positive_time-negsuc m)
IsAfterEpoch-instant_of _ t (unset away) = refl

instant_of_iff : (v : Option Any) (t : Instant) → (t ≡ instant_of v) ↔ IsAfterEpoch v t
instant_of_iff v t =
    (λ e. subst (IsAfterEpoch v) (sym e) (instant_of-IsAfterEpoch v), IsAfterEpoch-instant_of v t)

-- The text under a claim that has a name.
abbrev IsNamedText : Text → Claims → Text → Type 0
IsNamedText name raw s = IfNamed name s [] (IsText (lookup name raw) s)

pub record IsIdentityOf (config : Oauth2Config) (raw : Claims) (identity : Identity) : Type 0 where
  pub principal : IsNamedText config.principal_claim raw identity.principal
  pub tenant_id : IsNamedText config.tenant_claim raw identity.tenant_id
  pub roles :
      IfNamed config.roles_claim identity.roles []
        (IsTexts (lookup config.roles_claim raw) identity.roles)
  pub scope : Text
  pub scope_read : IsNamedText config.scopes_claim raw scope
  pub permissions :
      IfNamed scope identity.permissions [] (identity.permissions ≡ split_byte b' ' scope)
  pub method : identity.method ≡ bytes "oauth2"
  pub claims_kept : identity.claims ≡ raw
  pub expires_at : IsAfterEpoch (lookup (bytes "exp") raw) identity.expires_at
  pub issued_at : IsAfterEpoch (lookup (bytes "iat") raw) identity.issued_at

claim_iff : (name : Text) (raw : Claims) (s : Text) → (s ≡ claim name raw) ↔ IsNamedText name raw s
unfolding string_at
claim_iff name raw s = named_iff name s [] _ (text_of_iff (lookup name raw) s)

module _ (config : Oauth2Config) (raw : Claims) (identity : Identity) where
  roles_iff :
      (identity.roles
        ≡ (if config.roles_claim =ᵗ [] then [] else texts_of (lookup config.roles_claim raw)))
      ↔ IfNamed config.roles_claim identity.roles []
          (IsTexts (lookup config.roles_claim raw) identity.roles)
  roles_iff = named_iff config.roles_claim identity.roles [] _ (texts_of_iff _ identity.roles)

  scopes_of_iff :
      (scope : Text)
      → (identity.permissions ≡ scopes_of scope)
        ↔ IfNamed scope identity.permissions [] (identity.permissions ≡ split_byte b' ' scope)
  scopes_of_iff scope = named_iff scope identity.permissions [] _ (λ e. e, λ e. e)

  pub build_identity_iff :
      (identity ≡ build_identity config (read_response raw)) ↔ IsIdentityOf config raw identity
  unfolding build_identity read_response string_at strings_at
  build_identity_iff = (
    λ e. record {
      principal =
          (claim_iff config.principal_claim raw identity.principal).0
            (ap (λ (i : Identity). i.principal) e);
      tenant_id =
          (claim_iff config.tenant_claim raw identity.tenant_id).0
            (ap (λ (i : Identity). i.tenant_id) e);
      roles = roles_iff.0 (ap (λ (i : Identity). i.roles) e);
      scope = claim config.scopes_claim raw;
      scope_read = (claim_iff config.scopes_claim raw _).0 refl;
      permissions =
          (scopes_of_iff (claim config.scopes_claim raw)).0
            (ap (λ (i : Identity). i.permissions) e);
      method = ap (λ (i : Identity). i.method) e;
      claims_kept = ap (λ (i : Identity). i.claims) e;
      expires_at =
          (instant_of_iff (lookup (bytes "exp") raw) identity.expires_at).0
            (ap (λ (i : Identity). i.expires_at) e);
      issued_at =
          (instant_of_iff (lookup (bytes "iat") raw) identity.issued_at).0
            (ap (λ (i : Identity). i.issued_at) e);
    },
    λ is.
        let scope = (claim_iff config.scopes_claim raw is.scope).1 is.scope_read in
        let permissions = (scopes_of_iff is.scope).1 is.permissions ∙ ap (λ s. scopes_of s) scope in
        λ i. record {
          principal = (claim_iff config.principal_claim raw identity.principal).1 is.principal i;
          tenant_id = (claim_iff config.tenant_claim raw identity.tenant_id).1 is.tenant_id i;
          roles = roles_iff.1 is.roles i;
          permissions = permissions i;
          method = is.method i;
          claims = is.claims_kept i;
          expires_at =
              (instant_of_iff (lookup (bytes "exp") raw) identity.expires_at).1 is.expires_at i;
          issued_at =
              (instant_of_iff (lookup (bytes "iat") raw) identity.issued_at).1 is.issued_at i;
        },
  )
