-- ===== src/Auth/Jwt/Acceptance.antt =====
-- Which requests the JWT authenticator accepts.
use toolops.Base.{
  ◌≡◌, ◌≢◌, refl, ap, sym, ◌∙◌, ◌↔◌, ◌⊎◌, inl, inr, Bool, true, false, Bool-cases, Option, none,
  some, [], ◌++◌, arith, if◌then◌else◌,
}
use toolops.Base.Text.{Text, bytes, ◌=ᵗ◌, =ᵗ_iff, trim_prefix}
use toolops.Base.StringMap.{lookup}
use toolops.Base.Unicode.{Unicode, trim_space}
use toolops.Auth.Identity.{err_missing_credentials, Identity, Any, str}
use toolops.Auth.Authenticator.{
  AuthRequest, AuthResult, Answer, result, get_header, auth_success, auth_failure,
}
use toolops.Auth.Claims.{Claims, as_string}
use toolops.Auth.Jwt.{
  JwtConfig, KeyProvider, Parser, Parsed, refused, token, build_identity, issuer_ok, audience_ok,
  check_parsed, key_function, key_id, same_text, get_audience, authenticate, jwt,
}
use toolops.Auth.Jwt.Header.{prefixed-passes, passes-prefixed}
use toolops.Auth.Jwt.Audience.{IsFor, audience_of_iff}
use toolops.Auth.Jwt.Described.{IsIdentityOf, build_identity_iff}

-- The issuer, where one is configured, is the text of the claim "iss".
abbrev IsIssued : JwtConfig → Claims → Type 0
IsIssued config claims =
    (config.issuer ≡ []) ⊎ (lookup (bytes "iss") claims ≡ some (str config.issuer))

-- The audience, where one is configured, is among the claim "aud".
abbrev IsAddressed : JwtConfig → Claims → Type 0
IsAddressed config claims =
    (config.audience ≡ []) ⊎ IsFor config.audience (lookup (bytes "aud") claims)

same_text-as_string :
    (s : Text) (v : Option Any) → (same_text s (as_string v) ≡ true) ↔ (v ≡ some (str s))
same_text-as_string s (some (str t)) = ground (arith, =ᵗ_iff t s)
same_text-as_string s _ = ground arith

if_set :
    {P : Type 0} (name : Text) (b : Bool)
    → (b ≡ true) ↔ P
    → ((if name =ᵗ [] then true else b) ≡ true) ↔ ((name ≡ []) ⊎ P)
if_set name b holds = (
  λ e. elim (Bool-cases (name =ᵗ [])) [
    | inl none_set ↦ inl ((=ᵗ_iff name []).0 none_set)
    | inr set ↦ inr (holds.0 (ground (arith, set, e)))
  ],
  λ is. elim is [
    | inl none_set ↦ ground (arith, (=ᵗ_iff name []).1 none_set)
    | inr p ↦ ground (arith, holds.1 p)
  ],
)

issuer_ok_iff :
    (config : JwtConfig) (claims : Claims)
    → (issuer_ok config claims ≡ true) ↔ IsIssued config claims
unfolding issuer_ok
issuer_ok_iff config claims =
    if_set config.issuer _ (same_text-as_string config.issuer (lookup (bytes "iss") claims))

audience_ok_iff :
    (config : JwtConfig) (claims : Claims)
    → (audience_ok config claims ≡ true) ↔ IsAddressed config claims
unfolding audience_ok get_audience
audience_ok_iff config claims =
    if_set config.audience _ (audience_of_iff config.audience (lookup (bytes "aud") claims))

-- What the library must return for a token that is accepted.
record IsGood (config : JwtConfig) (identity : Identity) (parsed : Parsed) : Type 0 where
  claims : Claims
  valid : parsed ≡ token true (some claims)
  issued : issuer_ok config claims ≡ true
  addressed : audience_ok config claims ≡ true
  built : identity ≡ build_identity config claims

check_parsed-IsGood :
    (config : JwtConfig) (parsed : Parsed) (identity : Identity)
    → check_parsed config parsed ≡ auth_success identity
    → IsGood config identity parsed
unfolding check_parsed auth_success auth_failure
check_parsed-IsGood config (refused message) identity e = absurd (ground (arith, e))
check_parsed-IsGood config (token false claims) identity e = absurd (ground (arith, e))
check_parsed-IsGood config (token true none) identity e = absurd (ground (arith, e))
check_parsed-IsGood config (token true (some claims)) identity e = record {
  claims = claims;
  valid = refl;
  issued = ground (arith, e);
  addressed = ground (arith, e);
  built = ground (arith, e);
}

IsGood-check_parsed :
    (config : JwtConfig) (parsed : Parsed) (identity : Identity)
    → IsGood config identity parsed
    → check_parsed config parsed ≡ auth_success identity
unfolding check_parsed
IsGood-check_parsed config parsed identity good =
    ap (check_parsed config) good.valid ∙ ground (arith, good.issued, good.addressed, good.built)

-- The two tests of the header before the token is parsed.
abbrev guarded : {W : Type 0} → Bool → Bool → AuthResult → W → W → Answer × W
guarded empty bare r w v =
    if empty
    then (result (auth_failure err_missing_credentials jwt), w)
    else if bare
    then (result (auth_failure err_missing_credentials jwt), w)
    else (result r, v)

guarded_ok :
    {W : Type 0} (empty bare : Bool) (r : AuthResult) (identity : Identity) (w v w' : W)
    → guarded empty bare r w v ≡ (result (auth_success identity), w')
    → (empty ≡ false) × (bare ≡ false) × (r ≡ auth_success identity) × (v ≡ w')
unfolding auth_success auth_failure
guarded_ok true bare r identity w v w' e = absurd (ground (arith, e))
guarded_ok false true r identity w v w' e = absurd (ground (arith, e))
guarded_ok false false r identity w v w' e = (refl, refl, ground (arith, e), ground (arith, e))

guarded_passed :
    {W : Type 0} (empty bare : Bool) (r : AuthResult) (identity : Identity) (w v w' : W)
    → empty ≡ false
    → bare ≡ false
    → r ≡ auth_success identity
    → v ≡ w'
    → guarded empty bare r w v ≡ (result (auth_success identity), w')
guarded_passed empty bare r identity w v w' filled prefixed checked world = ground arith

-- The key of the token's header, empty where it is missing or no string.
abbrev pub asked_for : Option Any → Text
asked_for (some (str kid)) = kid
asked_for _ = []

asked_for-key_id : (kid : Option Any) → key_id (as_string kid) ≡ asked_for kid
asked_for-key_id (some (str kid)) = refl
asked_for-key_id _ = refl

module _ {K W : Type 0} (u : Unicode) (parser : Parser K W) (provider : KeyProvider K W)
    (config : JwtConfig) where
  -- The library with the provider's keys.
  abbrev parsed_by : Text → W → Parsed × W
  parsed_by text w = parser.parse text (λ kid v. provider.get_key (asked_for kid) v) w

  -- The header is a prefix with the token behind it, which the library finds valid with claims that agree
  -- with the configuration and describe the identity.
  pub record IsAccepted (req : AuthRequest) (w w' : W) (identity : Identity) : Type 0 where
    pub some_prefix : config.token_prefix ≢ []
    pub token_string : Text
    pub prefixed : get_header req config.header_name ≡ config.token_prefix ++ token_string
    pub claims : Claims
    pub valid : parsed_by (trim_space u token_string) w ≡ (token true (some claims), w')
    pub issued : IsIssued config claims
    pub addressed : IsAddressed config claims
    pub described : IsIdentityOf config claims identity

  key_function_asks :
      key_function u parser provider config ≡ (λ kid v. provider.get_key (asked_for kid) v)
  key_function_asks i kid v = provider.get_key (asked_for-key_id kid i) v

  -- A request is accepted exactly when its header is the configured prefix, which is not empty, with a
  -- token behind it, and the library, asked with the provider's key under the `kid` of the token, finds the
  -- token valid with claims whose "iss" is the configured issuer and whose "aud" is or holds the configured
  -- audience, where these are set; each field of the identity is then what those claims say, and the world
  -- is as the library leaves it.
  pub jwt_iff :
      (req : AuthRequest) (w w' : W) (identity : Identity)
      → (authenticate u parser provider config req w ≡ (result (auth_success identity), w'))
        ↔ IsAccepted req w w' identity
  unfolding authenticate
  jwt_iff req w w' identity = (
    λ e.
        let header = get_header req config.header_name in
        let (filled, bare, checked, world) = guarded_ok _ _ _ identity w _ w' e in
        let (some_prefix, prefixed) = passes-prefixed config.token_prefix header bare in
        let good = check_parsed-IsGood config _ identity checked in
        record {
          some_prefix = some_prefix;
          token_string = trim_prefix config.token_prefix header;
          prefixed = prefixed;
          claims = good.claims;
          valid =
              ap (λ k. parser.parse (trim_space u (trim_prefix config.token_prefix header)) k w)
                (sym key_function_asks)
              ∙ (λ i. (good.valid i, world i));
          issued = (issuer_ok_iff config good.claims).0 good.issued;
          addressed = (audience_ok_iff config good.claims).0 good.addressed;
          described = (build_identity_iff config good.claims identity).0 good.built;
        },
    λ is.
        let header = get_header req config.header_name in
        let (filled, bare, cut) =
          prefixed-passes config.token_prefix header is.token_string is.some_prefix is.prefixed in
        let parsed =
          (λ i. parser.parse (trim_space u (cut i)) (key_function_asks i) w) ∙ is.valid in
        guarded_passed _ _ _ identity w _ w' filled bare
          (IsGood-check_parsed config _ identity (record {
            claims = is.claims;
            valid = ap (λ r. r.0) parsed;
            issued = (issuer_ok_iff config is.claims).1 is.issued;
            addressed = (audience_ok_iff config is.claims).1 is.addressed;
            built = (build_identity_iff config is.claims identity).1 is.described;
          }))
          (ap (λ r. r.1) parsed),
  )
