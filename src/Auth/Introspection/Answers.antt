-- ===== src/Auth/Introspection/Answers.antt =====
-- The ways to an accepting answer, in the words of the code.
use toolops.Base.{
  ◌≡◌, refl, ap, sym, ◌∙◌, ◌↔◌, true, Option, none, some, Option-cases, Bool-cases, ==_iff, ◌==◌,
  inl, inr, ◌⊎◌, arith,
}
use toolops.Base.Text.{Text, bytes}
use toolops.Base.StringMap.{lookup}
use toolops.Base.Unicode.{Unicode}
use toolops.Auth.Identity.{err_token_inactive, Identity, Err}
use toolops.Auth.Authenticator.{AuthRequest, result, get_header, auth_success, auth_failure}
use toolops.Auth.Claims.{Claims, as_bool}
use toolops.Auth.Introspection.{
  Oauth2Config, Host, Reply, no_request, no_response, replied, IntrospectionResult, read_response,
  judge, build_identity, request_of, extract_bearer_token, settle, check_token, accept, with_token,
  introspect, authenticate, or_false,
}
use toolops.Auth.TokenCache.{cached, remember}

-- A reply that tells of an active token.
judge_ok :
    (reply : Reply) (x : IntrospectionResult)
    → judge reply ≡ inr x
    → (raw : Claims) × (reply ≡ replied 200 (some raw)) × (x ≡ read_response raw)
judge_ok (no_request e) x h = absurd (ground (arith, h))
judge_ok no_response x h = absurd (ground (arith, h))
judge_ok (replied status none) x h = absurd (ground (arith, h))
judge_ok (replied status (some raw)) x h = elim (Bool-cases (status == 200)) [
  | inl ok ↦ (raw, ap (λ s. replied s (some raw)) ((==_iff status 200).0 ok), ground (arith, h, ok))
  | inr bad ↦ absurd (ground (arith, h, bad))
]

active_claim :
    (raw : Claims)
    → (read_response raw).active ≡ true
    → as_bool (lookup (bytes "active") raw) ≡ some true
unfolding read_response
active_claim raw h = elim (Option-cases (as_bool (lookup (bytes "active") raw))) [
  | inl missing ↦ absurd (ground (arith, h, missing))
  | inr (b, found) ↦ ground (arith, h, found)
]

active_response :
    (raw : Claims)
    → as_bool (lookup (bytes "active") raw) ≡ some true
    → (read_response raw).active ≡ true
unfolding read_response
active_response raw h = ap or_false h

accepts_same : (a b : Identity) → result (auth_success a) ≡ result (auth_success b) → a ≡ b
unfolding auth_success
accepts_same a b e = ground (arith, e)

refuses :
    (err : Err) (method : Text) (b : Identity)
    → ¬ (result (auth_failure err method) ≡ result (auth_success b))
unfolding auth_success auth_failure
refuses err method b e = ground (arith, e)

module _ {W : Type 0} (u : Unicode) (base64 digest : Text → Text) (h : Host W)
    (config : Oauth2Config) where
  open h use {cache, now, send}

  -- The world after an accepted introspection that ended in `w`.
  abbrev pub remembered : Text → Identity → W → W
  remembered token identity w =
      cache.put (remember (now w) (digest token) identity config.cache_ttl (cache.get w)) w

  -- How a request is accepted, and with which identity.
  pub data Answered (req : AuthRequest) (w : W) : Identity → W → Type 0 where
    from_cache :
        {identity : Identity} {v : W} (token : Text)
        → extract_bearer_token u (get_header req (bytes "Authorization")) ≡ some token
        → cached (now w) (digest token) (cache.get w) ≡ some identity
        → v ≡ w
        → Answered req w identity v
    introspected :
        {identity : Identity} {v : W} (token : Text) (raw : Claims) (w' : W)
        → extract_bearer_token u (get_header req (bytes "Authorization")) ≡ some token
        → cached (now w) (digest token) (cache.get w) ≡ none
        → send (request_of base64 config token) w ≡ (replied 200 (some raw), w')
        → as_bool (lookup (bytes "active") raw) ≡ some true
        → identity ≡ build_identity config (read_response raw)
        → v ≡ remembered token identity w'
        → Answered req w identity v

  accept_same :
      (token : Text) (built identity : Identity) (w' v : W)
      → accept u base64 digest h config token built w' ≡ (result (auth_success identity), v)
      → (identity ≡ built) × (v ≡ remembered token identity w')
  accept_same token built identity w' v e =
      let same = accepts_same built identity (ap (λ r. r.0) e) in
      (sym same, sym (ap (λ r. r.1) e) ∙ ap (λ i. remembered token i w') same)

  settled_ok :
      (token : Text) (j : Err ⊎ IntrospectionResult) (w' : W) (identity : Identity) (v : W)
      → settle u base64 digest h config token (j, w') ≡ (result (auth_success identity), v)
      → (x : IntrospectionResult) × (j ≡ inr x)
        × (x.active ≡ true)
        × (identity ≡ build_identity config x)
        × (v ≡ remembered token identity w')
  settled_ok token (inl err) w' identity v e = absurd (ground (arith, e))
  settled_ok token (inr x) w' identity v e = elim (Bool-cases x.active) [
    | inl active ↦
        let step : settle u base64 digest h config token (inr x, w')
            ≡ accept u base64 digest h config token (build_identity config x) w' =
          ground (arith, active) in
        let (built, ended) =
          accept_same token (build_identity config x) identity w' v (sym step ∙ e) in
        (x, refl, active, built, ended)
    | inr inactive ↦
        let step : settle u base64 digest h config token (inr x, w')
            ≡ (result (auth_failure err_token_inactive (bytes "Bearer")), w') =
          ground (arith, inactive) in
        absurd (refuses _ _ identity (ap (λ r. r.0) (sym step ∙ e)))
  ]

  introspect_ok :
      (req : AuthRequest) (w : W) (token : Text) (identity : Identity) (v : W)
      → extract_bearer_token u (get_header req (bytes "Authorization")) ≡ some token
      → cached (now w) (digest token) (cache.get w) ≡ none
      → check_token u base64 digest h config token none w ≡ (result (auth_success identity), v)
      → Answered req w identity v
  unfolding introspect
  introspect_ok req w token identity v has_token uncached e =
      let sent = send (request_of base64 config token) w in
      let (x, judged, active, built, ended) = settled_ok token (judge sent.0) sent.1 identity v e in
      let (raw, reply, read) = judge_ok sent.0 x judged in
      introspected token raw sent.1 has_token uncached (ap (λ r. (r, sent.1)) reply)
        (active_claim raw (sym (ap (λ (y : IntrospectionResult). y.active) read) ∙ active))
        (built ∙ ap (build_identity config) read) ended

  check_token_ok :
      (req : AuthRequest) (w : W) (token : Text) (known : Option Identity) (identity : Identity)
      (v : W)
      → extract_bearer_token u (get_header req (bytes "Authorization")) ≡ some token
      → cached (now w) (digest token) (cache.get w) ≡ known
      → check_token u base64 digest h config token known w ≡ (result (auth_success identity), v)
      → Answered req w identity v
  check_token_ok req w token none identity v has_token uncached e =
      introspect_ok req w token identity v has_token uncached e
  check_token_ok req w token (some known) identity v has_token found e =
      from_cache token has_token (found ∙ ap some (accepts_same known identity (ap (λ r. r.0) e)))
        (sym (ap (λ r. r.1) e))

  with_token_ok :
      (req : AuthRequest) (w : W) (token : Option Text) (identity : Identity) (v : W)
      → extract_bearer_token u (get_header req (bytes "Authorization")) ≡ token
      → with_token u base64 digest h config token w ≡ (result (auth_success identity), v)
      → Answered req w identity v
  with_token_ok req w none identity v no_token e = absurd (refuses _ _ identity (ap (λ r. r.0) e))
  with_token_ok req w (some token) identity v has_token e =
      check_token_ok req w token _ identity v has_token refl e

  Answered-authenticate :
      {req : AuthRequest} {w : W} {identity : Identity} {v : W}
      → Answered req w identity v
      → authenticate u base64 digest h config req w ≡ (result (auth_success identity), v)
  unfolding authenticate introspect
  Answered-authenticate {w} {identity} (from_cache token has_token found ended) =
      ap (λ t. with_token u base64 digest h config t w) has_token
      ∙ ap (λ c. check_token u base64 digest h config token c w) found
      ∙ ap (λ x. (result (auth_success identity), x)) (sym ended)
  Answered-authenticate {w} {identity}
        (introspected token raw w' has_token uncached sent active built ended) =
      ap (λ t. with_token u base64 digest h config t w) has_token
      ∙ ap (λ c. check_token u base64 digest h config token c w) uncached
      ∙ ap (λ s. settle u base64 digest h config token (judge s.0, s.1)) sent
      ∙ ground (arith, active_response raw active)
      ∙ ap (λ i. accept u base64 digest h config token i w') (sym built)
      ∙ ap (λ x. (result (auth_success identity), x)) (sym ended)

  -- In the words of the code.
  pub answers_iff :
      (req : AuthRequest) (w : W) (identity : Identity) (v : W)
      → (authenticate u base64 digest h config req w ≡ (result (auth_success identity), v))
        ↔ Answered req w identity v
  unfolding authenticate
  answers_iff req w identity v =
      (λ e. with_token_ok req w _ identity v refl e, λ a. Answered-authenticate a)
