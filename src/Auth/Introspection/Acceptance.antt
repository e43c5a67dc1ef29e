-- ===== src/Auth/Introspection/Acceptance.antt =====
-- Which requests the introspection authenticator accepts, and where the identity comes from.
use toolops.Base.{
  ◌≡◌, refl, sym, ◌∙◌, ◌↔◌, true, Option, none, some, Option-cases, inl, inr, ◌⊎◌, ◌<◌, ◌≤◌, arith,
}
use toolops.Base.Time.{Instant, add}
use toolops.Base.Text.{Text, bytes}
use toolops.Base.StringMap.{lookup, insert}
use toolops.Base.Unicode.{Unicode}
use toolops.Auth.Identity.{Any, boolean, Identity}
use toolops.Auth.Authenticator.{AuthRequest, result, get_header, auth_success}
use toolops.Auth.Claims.{Claims, as_bool}
use toolops.Auth.Introspection.{Oauth2Config, Host, replied, request_of, authenticate}
use toolops.Auth.Introspection.Answers.{Answered, remembered, answers_iff}
use toolops.Auth.Introspection.Bearer.{IsBearer, extract_bearer_token_iff}
use toolops.Auth.Introspection.Described.{IsIdentityOf, build_identity_iff}
use toolops.Auth.TokenCache.{TokenCache, CacheEntry, cached, remember}

-- An entry of the cache that is not past its expiry.
pub record IsCached (now : Instant) (token_hash : Text) (c : TokenCache) (identity : Identity)
    : Type 0 where
  pub entry : CacheEntry
  pub kept : lookup token_hash c.entries ≡ some entry
  pub current : now ≤ entry.expires_at
  pub same : identity ≡ entry.identity

-- No entry, or one past its expiry.
abbrev IsUncached : Instant → Text → TokenCache → Type 0
IsUncached now token_hash c =
    (lookup token_hash c.entries ≡ none)
    ⊎ ((entry : CacheEntry) × (lookup token_hash c.entries ≡ some entry) × (entry.expires_at < now))

cached-IsCached :
    (now : Instant) (token_hash : Text) (c : TokenCache) (identity : Identity)
    → (cached now token_hash c ≡ some identity) ↔ IsCached now token_hash c identity
unfolding cached
cached-IsCached now token_hash c identity = (
  λ e. elim (Option-cases (lookup token_hash c.entries)) [
    | inl missing ↦ absurd (ground (arith, e, missing))
    | inr (entry, kept) ↦ record {
      entry = entry;
      kept = kept;
      current = ground (arith, e, kept);
      same = ground (arith, e, kept);
    }
  ],
  λ is. ground (arith, is.kept, is.current, is.same),
)

cached-IsUncached :
    (now : Instant) (token_hash : Text) (c : TokenCache)
    → (cached now token_hash c ≡ none) ↔ IsUncached now token_hash c
unfolding cached
cached-IsUncached now token_hash c = (
  λ e. elim (Option-cases (lookup token_hash c.entries)) [
    | inl missing ↦ inl missing
    | inr (entry, kept) ↦ inr (entry, kept, ground (arith, e, kept))
  ],
  λ is. elim is [
    | inl missing ↦ ground (arith, missing)
    | inr (entry, kept, old) ↦ ground (arith, kept, old)
  ],
)

as_bool_iff : (v : Option Any) → (as_bool v ≡ some true) ↔ (v ≡ some (boolean true))
as_bool_iff (some (boolean b)) = ground arith
as_bool_iff _ = ground arith

module _ {W : Type 0} (u : Unicode) (base64 digest : Text → Text) (h : Host W)
    (config : Oauth2Config) where
  open h use {cache, now, send}

  -- The world with the identity in the cache, for CacheTTL.
  abbrev pub stored : Text → Identity → W → W
  stored token identity w =
      cache.put
        (record {
          entries =
              insert (digest token)
                (record { identity = identity; expires_at = add (now w) config.cache_ttl })
                (cache.get w).entries;
        })
        w

  remembered-stored :
      (token : Text) (identity : Identity) (w : W)
      → remembered u base64 digest h config token identity w ≡ stored token identity w
  unfolding remember
  remembered-stored token identity w = refl

  -- How a request is accepted, and with which identity.
  pub data Accepted (req : AuthRequest) (w : W) : Identity → W → Type 0 where
    from_cache :
        {identity : Identity} {v : W} (token : Text)
        → IsBearer u (get_header req (bytes "Authorization")) token
        → IsCached (now w) (digest token) (cache.get w) identity
        → v ≡ w
        → Accepted req w identity v
    introspected :
        {identity : Identity} {v : W} (token : Text) (raw : Claims) (w' : W)
        → IsBearer u (get_header req (bytes "Authorization")) token
        → IsUncached (now w) (digest token) (cache.get w)
        → send (request_of base64 config token) w ≡ (replied 200 (some raw), w')
        → lookup (bytes "active") raw ≡ some (boolean true)
        → IsIdentityOf config raw identity
        → v ≡ stored token identity w'
        → Accepted req w identity v

  Answered-Accepted :
      {req : AuthRequest} {w : W} {identity : Identity} {v : W}
      → Answered u base64 digest h config req w identity v
      → Accepted req w identity v
  Answered-Accepted {w} {identity} (Answered.from_cache token has_token found ended) =
      from_cache token ((extract_bearer_token_iff u _ token).0 has_token)
        ((cached-IsCached (now w) (digest token) (cache.get w) identity).0 found) ended
  Answered-Accepted {w} {identity}
        (Answered.introspected token raw w' has_token uncached sent active built ended) =
      introspected token raw w' ((extract_bearer_token_iff u _ token).0 has_token)
        ((cached-IsUncached (now w) (digest token) (cache.get w)).0 uncached) sent
        ((as_bool_iff (lookup (bytes "active") raw)).0 active)
        ((build_identity_iff config raw identity).0 built)
        (ended ∙ remembered-stored token identity w')

  Accepted-Answered :
      {req : AuthRequest} {w : W} {identity : Identity} {v : W}
      → Accepted req w identity v
      → Answered u base64 digest h config req w identity v
  Accepted-Answered {w} {identity} (from_cache token has_token found ended) =
      Answered.from_cache token ((extract_bearer_token_iff u _ token).1 has_token)
        ((cached-IsCached (now w) (digest token) (cache.get w) identity).1 found) ended
  Accepted-Answered {w} {identity}
        (introspected token raw w' has_token uncached sent active built ended) =
      Answered.introspected token raw w' ((extract_bearer_token_iff u _ token).1 has_token)
        ((cached-IsUncached (now w) (digest token) (cache.get w)).1 uncached) sent
        ((as_bool_iff (lookup (bytes "active") raw)).1 active)
        ((build_identity_iff config raw identity).1 built)
        (ended ∙ sym (remembered-stored token identity w'))

  -- A request is accepted exactly as `Accepted` says: with a bearer token, and either the identity of an entry
  -- of the cache for the token that is not past its expiry, in an unchanged world, or, where there is none, one with
  -- each field as the claims of a reply of status 200 say whose claim "active" is true; that one is then in the
  -- cache for CacheTTL.
  pub introspection_iff :
      (req : AuthRequest) (w : W) (identity : Identity) (v : W)
      → (authenticate u base64 digest h config req w ≡ (result (auth_success identity), v))
        ↔ Accepted req w identity v
  introspection_iff req w identity v =
      let answered = answers_iff u base64 digest h config req w identity v in
      (λ e. Answered-Accepted (answered.0 e), λ a. answered.1 (Accepted-Answered a))
