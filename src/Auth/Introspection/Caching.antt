-- ===== src/Auth/Introspection/Caching.antt =====
-- What the cache of tokens does to later requests.
use toolops.Base.{◌≤◌, ◌≡◌, refl, ap, ◌∙◌, true, none, some, arith}
use toolops.Base.Int.{ℤ}
use toolops.Base.Time.{Instant, add}
use toolops.Base.Text.{Text, bytes, =ᵗ_iff}
use toolops.Base.StringMap.{lookup, lookup-insert}
use toolops.Base.Unicode.{Unicode}
use toolops.Auth.Identity.{Identity}
use toolops.Auth.Authenticator.{AuthRequest, result, get_header, auth_success}
use toolops.Auth.Claims.{Claims, as_bool}
use toolops.Auth.Introspection.{
  Oauth2Config, Host, replied, read_response, build_identity, request_of, extract_bearer_token,
  authenticate,
}
use toolops.Auth.TokenCache.{TokenCache, cached, remember}
use toolops.Auth.Introspection.Answers.{from_cache, introspected, answers_iff}

cached-remember :
    (now later : Instant) (k : Text) (identity : Identity) (ttl : ℤ) (c : TokenCache)
    → later ≤ add now ttl
    → cached later k (remember now k identity ttl c) ≡ some identity
unfolding cached remember
cached-remember now later k identity ttl c h = ground (
  arith,
  lookup-insert k k (record { identity = identity; expires_at = add now ttl }) c.entries,
  =ᵗ_iff k k,
)

module _ {W : Type 0} (u : Unicode) (base64 digest : Text → Text) (h : Host W)
    (config : Oauth2Config) where
  open h use {cache, now, send}

  -- Once the endpoint has said that a token is active, a request with the token is accepted with the same
  -- identity until CacheTTL has passed, without asking the endpoint, if the cache is left alone meanwhile. It is
  -- accepted then also where the token's own expiry is past.
  pub introspection_cached :
      (req again : AuthRequest) (w w' v : W) (token : Text) (raw : Claims)
      → extract_bearer_token u (get_header req (bytes "Authorization")) ≡ some token
      → extract_bearer_token u (get_header again (bytes "Authorization")) ≡ some token
      → cached (now w) (digest token) (cache.get w) ≡ none
      → send (request_of base64 config token) w ≡ (replied 200 (some raw), w')
      → as_bool (lookup (bytes "active") raw) ≡ some true
      → cache.get v ≡ cache.get (authenticate u base64 digest h config req w).1
      → now v ≤ add (now w') config.cache_ttl
      → authenticate u base64 digest h config again v
        ≡ (result (auth_success (build_identity config (read_response raw))), v)
  introspection_cached req again w w' v token raw has_token same_token uncached sent active kept
        within =
      let identity = build_identity config (read_response raw) in
      let first =
        (answers_iff u base64 digest h config req w identity _).1
          (introspected token raw w' has_token uncached sent active refl refl) in
      let kept' : cache.get v
          ≡ remember (now w') (digest token) identity config.cache_ttl (cache.get w') =
        kept ∙ ap (λ r. cache.get r.1) first ∙ cache.get-put _ _ in
      (answers_iff u base64 digest h config again v identity v).1 (
        from_cache token same_token
          (ap (cached (now v) (digest token)) kept'
            ∙ cached-remember (now w') (now v) (digest token) identity config.cache_ttl
                (cache.get w') within)
          refl)
