-- ===== src/Auth/ApiKey/Acceptance.antt =====
-- Which requests the authenticator accepts over the store in memory, and as whom.
use toolops.Base.{
  ◌≡◌, ◌≢◌, refl, sym, ap, ◌∙◌, true, false, ◌≤◌, some, [], List, Option-cases, inl, inr, ◌↔◌, ◌⊎◌,
  Bool-cases, arith,
}
use toolops.Base.Time.{Instant}
use toolops.Base.Text.{Text, bytes, ◌=ᵗ◌, =ᵗ_iff, =ᵗ_ne_iff}
use toolops.Base.StringMap.{lookup, insert}
use toolops.Base.Unicode.{Unicode, trim_space}
use toolops.Base.World.{Cell}
use toolops.Auth.Identity.{Identity, str}
use toolops.Auth.Authenticator.{
  AuthRequest, AuthResult, result, get_header, auth_success, auth_failure,
}
use toolops.Auth.ApiKey.{
  ApiKeyConfig, ApiKeyInfo, MemoryApiKeyStore, as_store, has_expired, identity_of, hash_key,
  authenticate,
}
use toolops.Auth.ApiKey.Registry.{Edit, store_of, Registered, Registered-lookup, lookup-Registered}

-- The key itself where the algorithm is "plain", else its digest.
abbrev pub IsHash : (Text → Text) → Text → Text → Text → Type 0
IsHash digest algorithm key hash =
    ((algorithm ≡ bytes "plain") × (hash ≡ key))
    ⊎ ((algorithm ≢ bytes "plain") × (hash ≡ digest key))

-- Without an expiry, which the zero Time says, or not past it.
abbrev pub IsCurrent : Instant → ApiKeyInfo → Type 0
IsCurrent now info = (info.expires_at ≡ 0) ⊎ (now ≤ info.expires_at)

-- The identity of a key: its entry, and its id and metadata as claims.
pub record IsIdentityOf (info : ApiKeyInfo) (identity : Identity) : Type 0 where
  pub principal : identity.principal ≡ info.principal
  pub tenant_id : identity.tenant_id ≡ info.tenant_id
  pub roles : identity.roles ≡ info.roles
  pub permissions : identity.permissions ≡ []
  pub method : identity.method ≡ bytes "api_key"
  pub claims : identity.claims ≡ insert (bytes "key_id") (str info.id) info.metadata
  pub expires_at : identity.expires_at ≡ info.expires_at
  pub issued_at : identity.issued_at ≡ 0

identity_of-IsIdentityOf :
    (info : ApiKeyInfo) (identity : Identity)
    → (identity ≡ identity_of info) ↔ IsIdentityOf info identity
unfolding identity_of
identity_of-IsIdentityOf info identity = (
  λ e. record {
    principal = ap (λ (i : Identity). i.principal) e;
    tenant_id = ap (λ (i : Identity). i.tenant_id) e;
    roles = ap (λ (i : Identity). i.roles) e;
    permissions = ap (λ (i : Identity). i.permissions) e;
    method = ap (λ (i : Identity). i.method) e;
    claims = ap (λ (i : Identity). i.claims) e;
    expires_at = ap (λ (i : Identity). i.expires_at) e;
    issued_at = ap (λ (i : Identity). i.issued_at) e;
  },
  λ is. ground (
    arith, is.principal, is.tenant_id, is.roles, is.permissions, is.method, is.claims,
    is.expires_at, is.issued_at,
  ),
)

has_expired-IsCurrent :
    (now : Instant) (info : ApiKeyInfo) → (has_expired now info ≡ false) ↔ IsCurrent now info
unfolding has_expired
has_expired-IsCurrent now info = ground arith

hash_key-IsHash :
    (digest : Text → Text) (config : ApiKeyConfig) (key hash : Text)
    → (hash_key digest config key ≡ hash) ↔ IsHash digest config.hash_algorithm key hash
unfolding hash_key
hash_key-IsHash digest config key hash = (
  λ e. elim (Bool-cases (config.hash_algorithm =ᵗ bytes "plain")) [
    | inl plain ↦
        inl ((=ᵗ_iff config.hash_algorithm (bytes "plain")).0 plain, ground (arith, plain, e))
    | inr else ↦
        inr ((=ᵗ_ne_iff config.hash_algorithm (bytes "plain")).0 else, ground (arith, else, e))
  ],
  λ is. elim is [
    | inl (plain, e) ↦ ground (arith, (=ᵗ_iff config.hash_algorithm (bytes "plain")).1 plain, e)
    | inr (else, e) ↦ ground (arith, (=ᵗ_ne_iff config.hash_algorithm (bytes "plain")).1 else, e)
  ],
)

module _ (u : Unicode) (digest : Text → Text) (config : ApiKeyConfig) where
  -- The header's key, without surrounding space, has a hash that was last registered with this entry.
  pub record IsAccepted (es : List Edit) (now : Instant) (req : AuthRequest) (info : ApiKeyInfo)
      : Type 0 where
    pub presented : get_header req config.header_name ≢ []
    pub key_hash : Text
    pub hashed :
        IsHash digest config.hash_algorithm
          (trim_space u (get_header req config.header_name))
          key_hash
    pub registered : Registered key_hash info es
    pub current : IsCurrent now info

  module _ {W : Type 0} (now : W → Instant) (cell : Cell W MemoryApiKeyStore) where
    -- The hash that is looked up.
    abbrev hash_of : AuthRequest → Text
    hash_of req = hash_key digest config (trim_space u (get_header req config.header_name))

    -- The same with the tests of the code.
    authenticate-found :
        (req : AuthRequest) (w : W) (r : AuthResult)
        → r.authenticated ≡ true
        → (authenticate u digest now config (as_store cell) req w ≡ (result r, w)) ↔ (
            (info : ApiKeyInfo) × ((get_header req config.header_name =ᵗ []) ≡ false)
            × (lookup (hash_of req) (cell.get w).keys ≡ some info)
            × (has_expired (now w) info ≡ false)
            × (r ≡ auth_success (identity_of info)))
    unfolding authenticate as_store auth_success auth_failure
    authenticate-found req w r ok = (
      λ e. elim (Option-cases (lookup (hash_of req) (cell.get w).keys)) [
        | inl unknown ↦ absurd (ground (arith, e, unknown))
        | inr (info, known) ↦ (info, ground arith, known, ground arith, ground arith)
      ],
      λ s. ground (arith, s.1, s.2, s.3, s.4),
    )

    -- Whatever calls of Add and Remove a new store has had, a request is accepted exactly when it has a key
    -- whose hash, the key itself where the algorithm is "plain" and else its digest, the last call with
    -- that hash added with an entry that has no expiry or is not past it; the identity is that entry's,
    -- with its id among the claims, and the world is as before.
    pub authenticate_iff :
        (es : List Edit) (req : AuthRequest) (w : W) (identity : Identity)
        → cell.get w ≡ store_of es
        → (authenticate u digest now config (as_store cell) req w
            ≡ (result (auth_success identity), w))
          ↔ ((info : ApiKeyInfo) × IsAccepted es (now w) req info × IsIdentityOf info identity)
    unfolding auth_success
    authenticate_iff es req w identity is_store = (
      λ e.
          let (info, filled, known, current, same) =
            (authenticate-found req w (auth_success identity) refl).0 e in
          (
            info,
            record {
              presented = (=ᵗ_ne_iff (get_header req config.header_name) []).0 filled;
              key_hash = hash_of req;
              hashed = (hash_key-IsHash digest config _ _).0 refl;
              registered = lookup-Registered _ info es (
                  ap (λ (s : MemoryApiKeyStore). lookup (hash_of req) s.keys) (sym is_store)
                  ∙ known);
              current = (has_expired-IsCurrent (now w) info).0 current;
            },
            (identity_of-IsIdentityOf info identity).0 (ground (arith, same)),
          ),
      λ (info, is, described).
          let same = (identity_of-IsIdentityOf info identity).1 described in
          let hashed = (hash_key-IsHash digest config _ is.key_hash).1 is.hashed in
          (authenticate-found req w (auth_success identity) refl).1 (
            info,
            (=ᵗ_ne_iff (get_header req config.header_name) []).1 is.presented,
            ap (λ k. lookup k (cell.get w).keys) hashed
                ∙ ap (λ (s : MemoryApiKeyStore). lookup is.key_hash s.keys) is_store
                ∙ Registered-lookup is.key_hash info is.registered,
            (has_expired-IsCurrent (now w) info).1 is.current,
            ap auth_success same,
          ),
    )
