-- ===== src/Auth/Authenticator.antt =====
-- auth/authenticator.go: requests with credentials, and the results of looking at them.
use toolops.Base.{Bool, true, false, Option, none, some, List, [], ◌∷◌}
use toolops.Base.Text.{Text}
use toolops.Base.StringMap.{StringMap, lookup}
use toolops.Auth.Identity.{Identity, Any, Err}

-- A nil map of headers is `none`.
pub record AuthRequest : Type 0 where
  pub headers : Option (StringMap (List Text))
  pub resource : Text
  pub metadata : StringMap Any

abbrev pub first_value : Option (List Text) → Text
first_value none = []
first_value (some []) = []
first_value (some (v ∷ vs)) = v

unfoldable pub get_header : AuthRequest → Text → Text
get_header r key = elim r.headers [ none ↦ [] | some headers ↦ first_value (lookup key headers) ]

pub record AuthResult : Type 0 where
  pub authenticated : Bool
  pub identity : Option Identity
  pub error : Option Err
  pub method : Text

unfoldable pub auth_success : Identity → AuthResult
auth_success identity = record {
  authenticated = true;
  identity = some identity;
  error = none;
  method = identity.method;
}

unfoldable pub auth_failure : Err → Text → AuthResult
auth_failure err method = record {
  authenticated = false;
  identity = none;
  error = some err;
  method = method;
}

-- What Authenticate returns: (result, nil) or (nil, error).
pub data Answer : Type 0 where
  result : AuthResult → Answer
  failed : Err → Answer

-- The interface Authenticator, over the world that its implementations read and change.
pub record Authenticator (W : Type 0) : Type 0 where
  pub name : Text
  pub supports : AuthRequest → W → Bool
  pub authenticate : AuthRequest → W → Answer × W

unfoldable pub new_authenticator_func :
    {W : Type 0}
    → Text
    → (AuthRequest → W → Bool)
    → (AuthRequest → W → Answer × W)
    → Authenticator W
new_authenticator_func name supports auth = record {
  name = name;
  supports = supports;
  authenticate = auth;
}
