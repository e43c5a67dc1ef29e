-- ===== src/Auth/Composite/Sources.antt =====
-- Where the composite's answers come from.
use toolops.Base.{
  ◌≡◌, refl, ap, sym, subst, ◌∙◌, Bool, true, false, Option, none, some, List, [], ◌∷◌, Memᴰ,
  Bool-cases, inl, inr, ◌⊎◌, if◌then◌else◌,
}
use toolops.Auth.Authenticator.{
  AuthRequest, AuthResult, Answer, result, failed, Authenticator, auth_failure,
}
use toolops.Auth.Composite.{
  CompositeAuthenticator, conclude, consider, attempts, authenticate, missing, or_first,
}

module _ {W : Type 0} (req : AuthRequest) (stop_on_first : Bool) where
  -- An authenticator of the list that supports the request, in the world in which it gave the answer.
  pub record GaveIn (auths : List (Authenticator W)) (answer : Answer) : Type 0 where
    pub auth : Authenticator W
    pub world : W
    pub listed : Memᴰ auth auths
    pub supported : auth.supports req world ≡ true
    pub gave : (auth.authenticate req world).0 ≡ answer

  module _ (all : List (Authenticator W)) where
    -- An answer of the loop: one that a member gave, or the lack of credentials.
    abbrev pub HasSource : Answer × W → Type 0
    HasSource r = GaveIn all r.0 ⊎ (r.0 ≡ result missing)

    abbrev Kept : Option AuthResult → Type 0
    Kept none = Unit
    Kept (some r) = GaveIn all (result r)

    Kept-or_first :
        (o : Option AuthResult) (r : AuthResult) → Kept o → Kept (some r) → Kept (or_first o r)
    Kept-or_first none r h k = k
    Kept-or_first (some s) r h k = h

    conclude-HasSource :
        (success last : Option AuthResult) (w : W)
        → Kept success
        → Kept last
        → HasSource (result (conclude success last), w)
    conclude-HasSource (some r) last w h k = inl h
    conclude-HasSource none (some r) w h k = inl k
    conclude-HasSource none none w h k = inr refl

    branch-HasSource :
        (ok stop : Bool) (success : Option AuthResult)
        (next : Option AuthResult → Option AuthResult → W → Answer × W) (r : AuthResult) (w : W)
        → GaveIn all (result r)
        → Kept success
        → ((l s : Option AuthResult) (v : W) → Kept l → Kept s → HasSource (next l s v))
        → HasSource (
            if ok
            then if stop then (result r, w) else next (some r) (or_first success r) w
            else next (some r) success w)
    branch-HasSource false stop success next r w gave h later = later (some r) success w gave h
    branch-HasSource true true success next r w gave h later = inl gave
    branch-HasSource true false success next r w gave h later =
        later (some r) (or_first success r) w gave (Kept-or_first success r h gave)

    consider-HasSource :
        (success : Option AuthResult)
        (next : Option AuthResult → Option AuthResult → W → Answer × W) (a : Answer × W)
        → GaveIn all a.0
        → Kept success
        → ((l s : Option AuthResult) (v : W) → Kept l → Kept s → HasSource (next l s v))
        → HasSource (consider req stop_on_first success next a)
    consider-HasSource success next (failed err, w) gave h later = inl gave
    consider-HasSource success next (result r, w) gave h later =
        branch-HasSource r.authenticated stop_on_first success next r w gave h later

    attempts-HasSource :
        (auths : List (Authenticator W))
        → ((auth : Authenticator W) → Memᴰ auth auths → Memᴰ auth all)
        → (last success : Option AuthResult) (w : W) → Kept last
        → Kept success
        → HasSource (attempts req stop_on_first auths last success w)
    unfolding attempts
    attempts-HasSource [] within last success w k h = conclude-HasSource success last w h k
    attempts-HasSource (auth ∷ auths) within last success w k h =
        let within' = λ (a : Authenticator W) (m : Memᴰ a auths). within a (Memᴰ.tail m) in
        elim (Bool-cases (auth.supports req w)) [
          | inl supported ↦ rw supported (
              consider-HasSource success (λ l s v. attempts req stop_on_first auths l s v)
                (auth.authenticate req w)
                (record {
                  auth = auth;
                  world = w;
                  listed = within auth (Memᴰ.head refl);
                  supported = supported;
                  gave = refl;
                })
                h (λ l s v kl ks. attempts-HasSource auths within' l s v kl ks))
          | inr other ↦ rw other (attempts-HasSource auths within' last success w k h)
        ]

-- Whatever the composite answers, an error too, was answered as it stands by a member that supports the
-- request; or it is the failure for missing credentials.
pub authenticate-HasSource :
    {W : Type 0} (c : CompositeAuthenticator W) (req : AuthRequest) (w : W)
    → HasSource req c.stop_on_first c.authenticators (authenticate c req w)
unfolding authenticate
authenticate-HasSource c req w =
    attempts-HasSource req c.stop_on_first c.authenticators c.authenticators (λ a m. m) none none w
      tt tt

-- So a success of the composite is a success of a member that supports the request.
pub authenticate_success :
    {W : Type 0} (c : CompositeAuthenticator W) (req : AuthRequest) (w : W) (r : AuthResult)
    → (authenticate c req w).0 ≡ result r
    → r.authenticated ≡ true
    → GaveIn req c.stop_on_first c.authenticators (result r)
unfolding missing auth_failure
authenticate_success c req w r is ok = elim (authenticate-HasSource c req w) [
  | inl gave ↦ subst (GaveIn req c.stop_on_first c.authenticators) is gave
  | inr lacking ↦
      let e : result r ≡ result missing = sym is ∙ lacking in
      let same : r ≡ missing = cc in
      let no : false ≡ true = sym (ap (λ x. x.authenticated) same) ∙ ok in cc
]
