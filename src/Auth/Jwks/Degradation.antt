-- ===== src/Auth/Jwks/Degradation.antt =====
-- What the provider answers while the endpoint fails, after any refreshes that succeeded.
use toolops.Base.{◌≡◌, refl, ap, ◌∙◌, false, Option, none, some, List, [], ◌∷◌, inr}
use toolops.Base.Text.{Text, ◌=ᵗ◌}
use toolops.Base.Time.{Instant}
use toolops.Base.StringMap.{lookup}
use toolops.Auth.Jwks.{
  JwksConfig, RsaPublicKey, JwkKey, JwksKeyProvider, new_jwks_key_provider, parse_keys, update,
  or_else, Host, get_key,
}
use toolops.Auth.Jwks.Names.{parse_keys-IsUnique, lookup-insert_all}
use toolops.Auth.Jwks.Backup.{refreshed, refreshed_new-IsBacked, IsDown, get_key_degrades}

module _ (decode : Text → Option Text) where
  -- The key of the last response that held one under the name.
  unfoldable pub last_known :
      Text → List (Instant × List JwkKey) → Option RsaPublicKey → Option RsaPublicKey
  unfolding parse_keys
  last_known k [] known = known
  last_known k ((now, jwks) ∷ rs) known =
      last_known k rs (or_else (lookup k (parse_keys decode jwks [])) known)

  lookup-refreshed :
      (k : Text) (rs : List (Instant × List JwkKey)) (p : JwksKeyProvider)
      → lookup k (refreshed decode rs p).last_fetched ≡ last_known k rs (lookup k p.last_fetched)
  unfolding refreshed last_known update
  lookup-refreshed k [] p = refl
  lookup-refreshed k ((now, jwks) ∷ rs) p =
      let keys = parse_keys decode jwks [] in
      lookup-refreshed k rs (update now keys p)
      ∙ ap (last_known k rs)
          (lookup-insert_all k keys p.last_fetched (parse_keys-IsUnique decode jwks [] tt))

  -- Whatever refreshes of a new provider have succeeded, while the endpoint fails GetKey returns under a name
  -- the key of the last response that held one under it.
  pub get_key_last_known :
      {W : Type 0} (h : Host W) (rs : List (Instant × List JwkKey)) (config : JwksConfig) (k : Text)
      (key : RsaPublicKey) (w : W)
      → (k =ᵗ []) ≡ false
      → h.provider.get w ≡ refreshed decode rs (new_jwks_key_provider config)
      → last_known k rs none ≡ some key
      → IsDown decode h w
      → (get_key decode h k w).0 ≡ inr key
  unfolding new_jwks_key_provider lookup
  get_key_last_known h rs config k key w is_named is known down =
      get_key_degrades decode h k key w is_named (rw is (refreshed_new-IsBacked decode rs config))
        (ap (λ (p : JwksKeyProvider). lookup k p.last_fetched) is
          ∙ lookup-refreshed k rs (new_jwks_key_provider config)
          ∙ known)
        down
