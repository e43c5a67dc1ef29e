-- ===== src/Auth/Composite.antt =====
-- auth/composite.go: several authenticators in sequence.
pub mod Sources
pub mod Modes
use toolops.Base.{Bool, true, false, ◌||◌, Option, none, some, List, [], ◌∷◌, any, if◌then◌else◌}
use toolops.Base.Text.{Text, bytes}
use toolops.Auth.Identity.{err_missing_credentials}
use toolops.Auth.Authenticator.{
  AuthRequest, AuthResult, Answer, result, failed, Authenticator, auth_failure,
}

pub record CompositeAuthenticator (W : Type 0) : Type 0 where
  pub authenticators : List (Authenticator W)
  pub stop_on_first : Bool

unfoldable pub new_composite_authenticator :
    {W : Type 0} → List (Authenticator W) → CompositeAuthenticator W
new_composite_authenticator auths = record { authenticators = auths; stop_on_first = true }

abbrev pub or_first {ℓ} : {A : Type ℓ} → Option A → A → Option A
or_first none a = some a
or_first (some b) a = some b

unfoldable pub missing : AuthResult
unfolding auth_failure
missing = auth_failure err_missing_credentials []

-- The end of the loop: the first success, else the last result.
abbrev pub conclude : Option AuthResult → Option AuthResult → AuthResult
conclude (some success) last = success
conclude none (some last) = last
conclude none none = missing

module _ {W : Type 0} (req : AuthRequest) (stop_on_first : Bool) where
  -- The body of the loop after Authenticate; `next` goes on with the last result and first success.
  abbrev pub consider :
      Option AuthResult
      → (Option AuthResult → Option AuthResult → W → Answer × W)
      → Answer × W
      → Answer × W
  consider success next (failed err, w) = (failed err, w)
  consider success next (result r, w) =
      if r.authenticated
      then if stop_on_first then (result r, w) else next (some r) (or_first success r) w
      else next (some r) success w

  pub attempts : List (Authenticator W) → Option AuthResult → Option AuthResult → W → Answer × W
  attempts [] last success w = (result (conclude success last), w)
  attempts (auth ∷ auths) last success w =
      let skipped = attempts auths last success w in
      if auth.supports req w
      then consider success (λ l s v. attempts auths l s v) (auth.authenticate req w)
      else skipped

module _ {W : Type 0} where
  unfoldable pub supports : CompositeAuthenticator W → AuthRequest → W → Bool
  supports c req w = any (λ auth. auth.supports req w) c.authenticators

  unfoldable pub authenticate : CompositeAuthenticator W → AuthRequest → W → Answer × W
  unfolding attempts
  authenticate c req w = attempts req c.stop_on_first c.authenticators none none w

  unfoldable pub as_authenticator : CompositeAuthenticator W → Authenticator W
  as_authenticator c = record {
    name = bytes "composite";
    supports = supports c;
    authenticate = authenticate c;
  }
