-- ===== src/Auth/Composite/Modes.antt =====
-- The two modes of the composite.
use toolops.Base.{
  ◌≡◌, refl, true, false, Option, none, some, List, [], ◌∷◌, Bool-cases, inl, inr, All, arith,
}
use toolops.Auth.Authenticator.{AuthRequest, AuthResult, result, Authenticator}
use toolops.Auth.Composite.{attempts, authenticate}

-- The authenticator answers with a result, and leaves the world as it is.
pub record IsSteady {W : Type 0} (req : AuthRequest) (w : W) (auth : Authenticator W) : Type 0 where
  pub answer : AuthResult
  pub answers : auth.authenticate req w ≡ (result answer, w)

module _ {W : Type 0} (req : AuthRequest) (w : W) where
  attempts_after_success :
      (auths : List (Authenticator W)) (last : Option AuthResult) (success : AuthResult)
      → All (IsSteady req w) auths
      → attempts req false auths last (some success) w ≡ (result success, w)
  unfolding attempts
  attempts_after_success [] last success steady = refl
  attempts_after_success (auth ∷ auths) last success (a, steady) =
      elim (Bool-cases (auth.supports req w)) [
        | inl asked ↦
            ground
              (arith, asked, a.answers, attempts_after_success auths (some a.answer) success steady)
        | inr skipped ↦ ground (arith, skipped, attempts_after_success auths last success steady)
      ]

  attempts_modes :
      (auths : List (Authenticator W)) (last : Option AuthResult)
      → All (IsSteady req w) auths
      → attempts req true auths last none w ≡ attempts req false auths last none w
  unfolding attempts
  attempts_modes [] last steady = refl
  attempts_modes (auth ∷ auths) last (a, steady) = elim (Bool-cases (auth.supports req w)) [
    | inl asked ↦ ground (
      arith,
      asked,
      a.answers,
      attempts_after_success auths (some a.answer) a.answer steady,
      attempts_modes auths (some a.answer) steady,
    )
    | inr skipped ↦ ground (arith, skipped, attempts_modes auths last steady)
  ]

-- Where every member answers with a result and leaves the world as it is, the composite answers the
-- same with StopOnFirst and without.
pub authenticate_modes :
    {W : Type 0} (auths : List (Authenticator W)) (req : AuthRequest) (w : W)
    → All (IsSteady req w) auths
    → authenticate (record { authenticators = auths; stop_on_first = true }) req w
      ≡ authenticate (record { authenticators = auths; stop_on_first = false }) req w
unfolding authenticate
authenticate_modes auths req w steady = attempts_modes req w auths none steady
