-- ===== src/Auth/Jwks/Withdrawal.antt =====
-- A key that the endpoint has withdrawn.
use toolops.Base.{ℕ, ◌≡◌, ap, sym, subst, ◌∙◌, false, Option, none, some, [], inl, inr, arith}
use toolops.Base.Text.{Text, ◌=ᵗ◌}
use toolops.Base.StringMap.{lookup}
use toolops.Auth.Identity.{err_key_not_found}
use toolops.Auth.Jwks.{
  RsaPublicKey, JwksKeyProvider, Reply, fetched, update, lookup_key, cache_valid, or_else, or_error,
  Host, refresh, keep, answer, in_cache, or_refresh, get_key,
}
use toolops.Auth.Jwks.Backup.{IsBacked, IsDown, update-IsBacked, named, get_key_degrades}
use toolops.Auth.Jwks.Names.{Keys, fetched-IsUnique, lookup-insert_all}

update_keeps :
    (k : Text) (key : RsaPublicKey) (decode : Text → Option Text) (reply : Reply) (now : ℕ)
    (keys : Keys) (p : JwksKeyProvider)
    → fetched decode reply ≡ inr keys
    → lookup k keys ≡ none
    → lookup k p.last_fetched ≡ some key
    → lookup k (update now keys p).last_fetched ≡ some key
unfolding update
update_keeps k key decode reply now keys p reads gone kept =
    lookup-insert_all k keys p.last_fetched (fetched-IsUnique decode reply keys reads)
    ∙ ap (λ o. or_else o (lookup k p.last_fetched)) gone
    ∙ kept

kept_keys :
    (k : Text) (now : ℕ) (keys : Keys) (p : JwksKeyProvider)
    → (k =ᵗ []) ≡ false
    → lookup k keys ≡ none
    → lookup_key k (update now keys p).keys ≡ none
unfolding update
kept_keys k now keys p is_named gone = named k keys is_named ∙ gone

module _ {W : Type 0} (decode : Text → Option Text) (h : Host W) where
  open h use {provider, now, fetch}

  get_key_gone :
      (key_id : Text) (w w' : W) (reply : Reply) (keys : Keys)
      → (key_id =ᵗ []) ≡ false
      → cache_valid (now w) (provider.get w) ≡ false
      → fetch (provider.get w).config.url w ≡ (reply, w')
      → fetched decode reply ≡ inr keys
      → lookup key_id keys ≡ none
      → get_key decode h key_id w
        ≡ (inl err_key_not_found, provider.put (update (now w') keys (provider.get w')) w')
  unfolding get_key refresh
  get_key_gone key_id w w' reply keys is_named stale replies reads gone =
      let after = provider.put (update (now w') keys (provider.get w')) w' in
      let missing : in_cache decode h key_id (provider.get w) (now w) ≡ none =
        ground (arith, stale) in
      ap (λ c. or_refresh decode h key_id c w) missing
      ∙ ap (λ r. answer decode h key_id (keep decode h (fetched decode r.0, r.1))) replies
      ∙ ap (λ f. answer decode h key_id (keep decode h (f, w'))) reads
      ∙ ap (λ (q : JwksKeyProvider). (or_error (lookup_key key_id q.keys) err_key_not_found, after))
          (provider.get-put _ _)
      ∙ ap (λ o. (or_error o err_key_not_found, after))
          (kept_keys key_id (now w') keys (provider.get w') is_named gone)

  -- A response without a key withdraws it: GetKey answers ErrKeyNotFound. But at the next refresh that fails, the
  -- withdrawn key is returned, from the backup. (The provider is taken to be left alone by other goroutines.)
  pub get_key_withdrawn :
      (key_id : Text) (key : RsaPublicKey) (w w' v : W) (reply : Reply) (keys : Keys)
      → (key_id =ᵗ []) ≡ false
      → lookup key_id (provider.get w).last_fetched ≡ some key
      → cache_valid (now w) (provider.get w) ≡ false
      → fetch (provider.get w).config.url w ≡ (reply, w')
      → fetched decode reply ≡ inr keys
      → lookup key_id keys ≡ none
      → provider.get w' ≡ provider.get w
      → provider.get v ≡ provider.get (get_key decode h key_id w).1
      → IsDown decode h v
      → ((get_key decode h key_id w).0 ≡ inl err_key_not_found)
        × ((get_key decode h key_id v).0 ≡ inr key)
  get_key_withdrawn key_id key w w' v reply keys is_named known stale replies reads gone same later
        down =
      let first = get_key_gone key_id w w' reply keys is_named stale replies reads gone in
      let p = update (now w') keys (provider.get w') in
      let state : provider.get v ≡ p =
        later ∙ ap (λ r. provider.get r.1) first ∙ provider.get-put _ _ in
      (
        ap (λ r. r.0) first,
        get_key_degrades decode h key_id key v is_named
            (subst IsBacked (sym state) (
              update-IsBacked (now w') keys (provider.get w')
                (fetched-IsUnique decode reply keys reads)))
            (ap (λ (q : JwksKeyProvider). lookup key_id q.last_fetched) state
              ∙ update_keeps key_id key decode reply (now w') keys (provider.get w') reads gone
                  (ap (λ (q : JwksKeyProvider). lookup key_id q.last_fetched) same ∙ known))
            down,
      )
