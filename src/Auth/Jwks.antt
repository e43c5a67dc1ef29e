-- ===== src/Auth/Jwks.antt =====
-- auth/jwks.go: signing keys from an endpoint, cached, with a backup of all keys that were ever fetched.
--
-- A call that joins another's refresh through singleflight is taken to run its own. The HTTP client with
-- its JSON decoder and base64 are parameters.
pub mod Names
pub mod Backup
pub mod Withdrawal
pub mod Degradation
use toolops.Base.{
  ℕ, ◌+◌, ◌*◌, ◌≡◌, Bool, true, false, Option, none, some, List, [], ◌∷◌, ◌==◌, if◌then◌else◌, ◌⊎◌,
  inl, inr,
}
use toolops.Base.Int.{ℤ, pos, ltb_ℤ, wrap64}
use toolops.Base.Time.{Instant, Duration, second, since}
use toolops.Base.Text.{Text, bytes, ◌=ᵗ◌}
use toolops.Base.StringMap.{StringMap, lookup, insert}
use toolops.Base.World.{Cell}
use toolops.Auth.Identity.{Err, err_key_not_found, other}
use toolops.Auth.Jwt.{KeyProvider, SigningKey, rsa}

pub record JwksConfig : Type 0 where
  pub url : Text
  pub cache_ttl : Duration

-- A CacheTTL of zero takes its default.
abbrev or_hour : Duration → Duration
or_hour (pos ℕ.zero) = pos (3_600 * second)
or_hour d = d

unfoldable pub new_config : JwksConfig → JwksConfig
new_config config = record config { cache_ttl = or_hour config.cache_ttl }

pub record RsaPublicKey : Type 0 where
  pub n : ℕ
  pub e : ℤ

-- The fields that are read.
pub record JwkKey : Type 0 where
  pub kty : Text
  pub kid : Text
  pub n : Text
  pub e : Text

pub record JwksKeyProvider : Type 0 where
  pub config : JwksConfig
  pub keys : StringMap RsaPublicKey
  pub cache_time : Instant
  pub last_fetched : StringMap RsaPublicKey

unfoldable pub new_jwks_key_provider : JwksConfig → JwksKeyProvider
new_jwks_key_provider config = record {
  config = new_config config;
  keys = [];
  cache_time = 0;
  last_fetched = [];
}

-- `SetBytes`: the number that bytes spell, the most significant first.
abbrev big_endian : ℕ → Text → ℕ
big_endian acc [] = acc
big_endian acc (b ∷ bs) = big_endian (acc * 256 + b) bs

abbrev rsa_of : Option Text → Option Text → Option RsaPublicKey
rsa_of none e = none
rsa_of (some n) none = none
rsa_of (some n) (some e) = some (record { n = big_endian 0 n; e = wrap64 (pos (big_endian 0 e)) })

-- base64.RawURLEncoding is `decode`; an error is `none`.
unfoldable pub parse_rsa_public_key : (Text → Option Text) → JwkKey → Option RsaPublicKey
parse_rsa_public_key decode jwk =
    if jwk.n =ᵗ [] then none else if jwk.e =ᵗ [] then none else rsa_of (decode jwk.n) (decode jwk.e)

-- The keys of a response: other types of key and invalid keys are skipped.
abbrev add_key : Text → Option RsaPublicKey → StringMap RsaPublicKey → StringMap RsaPublicKey
add_key kid none keys = keys
add_key kid (some key) keys = insert kid key keys

pub parse_keys :
    (Text → Option Text) → List JwkKey → StringMap RsaPublicKey → StringMap RsaPublicKey
unfolding parse_rsa_public_key
parse_keys decode [] keys = keys
parse_keys decode (jwk ∷ jwks) keys = parse_keys decode jwks (
    if jwk.kty =ᵗ bytes "RSA" then add_key jwk.kid (parse_rsa_public_key decode jwk) keys else keys)

-- What comes of the request: no response or an undecodable body, or a status code with the keys.
pub data Reply : Type 0 where
  no_reply : ℕ → Reply
  replied : ℕ → List JwkKey → Reply

-- The keys that are read from the reply, or an error.
unfoldable pub fetched : (Text → Option Text) → Reply → Err ⊎ StringMap RsaPublicKey
unfolding parse_keys
fetched decode (no_reply e) = inl (other e)
fetched decode (replied status jwks) =
    if status == 200 then inr (parse_keys decode jwks []) else inl (other status)

-- The keys of a response, over those of the backup.
pub insert_all : StringMap RsaPublicKey → StringMap RsaPublicKey → StringMap RsaPublicKey
insert_all [] backup = backup
insert_all ((kid, key) ∷ keys) backup = insert_all keys (insert kid key backup)

unfoldable pub update : Instant → StringMap RsaPublicKey → JwksKeyProvider → JwksKeyProvider
unfolding insert_all
update now keys p = record p {
  keys = keys;
  cache_time = now;
  last_fetched = insert_all keys p.last_fetched;
}

abbrev first_key : StringMap RsaPublicKey → Option RsaPublicKey
first_key [] = none
first_key ((_, key) ∷ keys) = some key

-- `lookupKeyLocked` and `lookupFromBackupLocked`.
unfoldable pub lookup_key : Text → StringMap RsaPublicKey → Option RsaPublicKey
unfolding lookup
lookup_key key_id keys = if key_id =ᵗ [] then first_key keys else lookup key_id keys

unfoldable pub cache_valid : Instant → JwksKeyProvider → Bool
unfolding since
cache_valid now p = ltb_ℤ (since now p.cache_time) p.config.cache_ttl

abbrev or_else : Option RsaPublicKey → Option RsaPublicKey → Option RsaPublicKey
or_else none backup = backup
or_else (some key) backup = some key

abbrev or_error : Option RsaPublicKey → Err → Err ⊎ RsaPublicKey
or_error none err = inl err
or_error (some key) err = inr key

-- The provider in the world, the clock and the exchange with the endpoint.
pub record Host (W : Type 0) : Type 0 where
  pub provider : Cell W JwksKeyProvider
  pub now : W → Instant
  pub fetch : Text → W → Reply × W

module _ {W : Type 0} (decode : Text → Option Text) (h : Host W) where
  open h use {provider, now, fetch}

  abbrev keep : (Err ⊎ StringMap RsaPublicKey) × W → (Option Err) × W
  keep (inl err, w) = (some err, w)
  keep (inr keys, w) = (none, provider.put (update (now w) keys (provider.get w)) w)

  unfoldable pub refresh : W → Option Err × W
  unfolding fetched update
  refresh w =
      let (reply, w') = fetch (provider.get w).config.url w in keep (fetched decode reply, w')

  -- After the refresh.
  abbrev pub answer : Text → Option Err × W → (Err ⊎ RsaPublicKey) × W
  answer key_id (some err, w) =
      let p = provider.get w in
      (or_error (or_else (lookup_key key_id p.keys) (lookup_key key_id p.last_fetched)) err, w)
  answer key_id (none, w) =
      (or_error (lookup_key key_id (provider.get w).keys) err_key_not_found, w)

  abbrev in_cache : Text → JwksKeyProvider → Instant → Option RsaPublicKey
  in_cache key_id p now = if cache_valid now p then lookup_key key_id p.keys else none

  abbrev or_refresh : Text → Option RsaPublicKey → W → (Err ⊎ RsaPublicKey) × W
  or_refresh key_id (some key) w = (inr key, w)
  or_refresh key_id none w = answer key_id (refresh w)

  unfoldable pub get_key : Text → W → (Err ⊎ RsaPublicKey) × W
  unfolding refresh lookup_key cache_valid
  get_key key_id w = or_refresh key_id (in_cache key_id (provider.get w) (now w)) w

  abbrev as_rsa : (Err ⊎ RsaPublicKey) × W → (Err ⊎ SigningKey RsaPublicKey) × W
  as_rsa (inl err, w) = (inl err, w)
  as_rsa (inr key, w) = (inr (rsa key), w)

  unfoldable pub as_key_provider : KeyProvider (SigningKey RsaPublicKey) W
  as_key_provider = record { get_key = λ key_id w. as_rsa (get_key key_id w) }
