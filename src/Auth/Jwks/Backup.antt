-- ===== src/Auth/Jwks/Backup.antt =====
-- The backup of fetched keys: what it holds, and what GetKey returns from it when the endpoint fails.
use toolops.Base.{
  ◌≡◌, refl, ap, sym, ◌∙◌, false, Option, none, some, List, [], ◌∷◌, Bool-cases, Option-cases, inl,
  inr, arith,
}
use toolops.Base.Text.{Text, ◌=ᵗ◌, IsUnique}
use toolops.Base.Time.{Instant}
use toolops.Base.StringMap.{lookup}
use toolops.Auth.Identity.{Err}
use toolops.Auth.Jwks.{
  JwksConfig, RsaPublicKey, JwkKey, JwksKeyProvider, new_jwks_key_provider, Reply, fetched,
  parse_keys, update, lookup_key, cache_valid, or_else, or_error, Host, refresh, keep, answer,
  in_cache, or_refresh, get_key,
}
use toolops.Auth.Jwks.Names.{Keys, names, parse_keys-IsUnique, lookup-insert_all}

-- Each key of the cache is in the backup.
pub record IsBacked (p : JwksKeyProvider) : Type 0 where
  pub backed :
      (k : Text) (key : RsaPublicKey)
      → lookup k p.keys ≡ some key
      → lookup k p.last_fetched ≡ some key

pub update-IsBacked :
    (now : Instant) (keys : Keys) (p : JwksKeyProvider)
    → IsUnique (names keys)
    → IsBacked (update now keys p)
unfolding update
update-IsBacked now keys p u = record {
  backed = λ k key found. lookup-insert_all k keys p.last_fetched u ∙ ground (arith, found);
}

-- A refresh that succeeded: when, and the keys of the response.
unfoldable pub refreshed :
    (Text → Option Text) → List (Instant × List JwkKey) → JwksKeyProvider → JwksKeyProvider
refreshed decode [] p = p
refreshed decode ((now, jwks) ∷ rs) p =
    refreshed decode rs (update now (parse_keys decode jwks []) p)

refreshed-IsBacked :
    (decode : Text → Option Text) (rs : List (Instant × List JwkKey)) (p : JwksKeyProvider)
    → IsBacked p
    → IsBacked (refreshed decode rs p)
unfolding refreshed
refreshed-IsBacked decode [] p b = b
refreshed-IsBacked decode ((now, jwks) ∷ rs) p b =
    refreshed-IsBacked decode rs _ (update-IsBacked now _ p (parse_keys-IsUnique decode jwks [] tt))

-- After any refreshes of a new provider, each key of its cache is in its backup.
pub refreshed_new-IsBacked :
    (decode : Text → Option Text) (rs : List (Instant × List JwkKey)) (config : JwksConfig)
    → IsBacked (refreshed decode rs (new_jwks_key_provider config))
unfolding new_jwks_key_provider lookup
refreshed_new-IsBacked decode rs config =
    refreshed-IsBacked decode rs _ (record { backed = λ k key h. absurd (ground (arith, h)) })

pub named : (k : Text) (keys : Keys) → (k =ᵗ []) ≡ false → lookup_key k keys ≡ lookup k keys
unfolding lookup_key
named k keys h = ground (arith, h)

or_backup :
    (cached backup : Option RsaPublicKey) (key : RsaPublicKey)
    → backup ≡ some key
    → ((k : RsaPublicKey) → cached ≡ some k → backup ≡ some k)
    → or_else cached backup ≡ some key
or_backup none backup key kept backed = kept
or_backup (some k) backup key kept backed = sym (backed k refl) ∙ kept

module _ {W : Type 0} (decode : Text → Option Text) (h : Host W) where
  open h use {provider, now, fetch}

  -- The refresh fails, and leaves the provider alone.
  pub record IsDown (w : W) : Type 0 where
    pub reply : Reply
    pub error : Err
    pub after : W
    pub replies : fetch (provider.get w).config.url w ≡ (reply, after)
    pub fails : fetched decode reply ≡ inl error
    pub same : provider.get after ≡ provider.get w

  refresh_down : (w : W) (down : IsDown w) → refresh decode h w ≡ (some down.error, down.after)
  unfolding refresh
  refresh_down w down =
      ap (λ r. keep decode h (fetched decode r.0, r.1)) down.replies
      ∙ ap (λ f. keep decode h (f, down.after)) down.fails

  in_cache-lookup :
      (key_id : Text) (p : JwksKeyProvider) (now : Instant) (key : RsaPublicKey)
      → (key_id =ᵗ []) ≡ false
      → in_cache decode h key_id p now ≡ some key
      → lookup key_id p.keys ≡ some key
  in_cache-lookup key_id p now key is_named found = elim (Bool-cases (cache_valid now p)) [
    | inl valid ↦ sym (named key_id p.keys is_named) ∙ ground (arith, found, valid)
    | inr stale ↦ absurd (ground (arith, found, stale))
  ]

  -- While the endpoint fails, a key that was fetched at any time is returned under its name, also one that
  -- later responses left out.
  pub get_key_degrades :
      (key_id : Text) (key : RsaPublicKey) (w : W)
      → (key_id =ᵗ []) ≡ false
      → IsBacked (provider.get w)
      → lookup key_id (provider.get w).last_fetched ≡ some key
      → IsDown w
      → (get_key decode h key_id w).0 ≡ inr key
  unfolding get_key
  get_key_degrades key_id key w is_named b kept down =
      let p = provider.get w in
      elim (Option-cases (in_cache decode h key_id p (now w))) [
        | inr (k, found) ↦
            let same : some k ≡ some key =
              sym (b.backed key_id k (in_cache-lookup key_id p (now w) k is_named found)) ∙ kept in
            ap (λ c. (or_refresh decode h key_id c w).0) (found ∙ same)
        | inl missing ↦
            ap (λ c. (or_refresh decode h key_id c w).0) missing
            ∙ ap (λ r. (answer decode h key_id r).0) (refresh_down w down)
            ∙ ap
                (λ (q : JwksKeyProvider).
                  or_error (or_else (lookup_key key_id q.keys) (lookup_key key_id q.last_fetched))
                    down.error)
                down.same
            ∙ ap (λ o. or_error o down.error)
                (or_backup (lookup_key key_id p.keys) (lookup_key key_id p.last_fetched) key
                  (named key_id p.last_fetched is_named ∙ kept)
                  (λ k e.
                    named key_id p.last_fetched is_named
                    ∙ b.backed key_id k (sym (named key_id p.keys is_named) ∙ e)))
      ]
