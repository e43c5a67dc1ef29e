-- ===== src/Auth/Authorizer.antt =====
-- auth/authorizer.go: requests, their refusal, and the constant authorizers.
use toolops.Base.{Bool, true, false, Option, none, some, [], ◌++◌}
use toolops.Base.Text.{Text, bytes, cut_prefix}
use toolops.Auth.Identity.{Identity, Err, err_forbidden}

pub record AuthzRequest : Type 0 where
  pub subject : Option Identity
  pub resource : Text
  pub action : Text
  pub resource_type : Text

unfoldable pub tool_name : AuthzRequest → Text
tool_name r = elim (cut_prefix (bytes "tool:") r.resource) [ some name ↦ name | none ↦ r.resource ]

pub record AuthzError : Type 0 where
  pub subject : Text
  pub resource : Text
  pub action : Text
  pub reason : Text
  pub cause : Option Err

-- `Error()`, over the quoting of `%q`.
unfoldable pub error_message : (Text → Text) → AuthzError → Text
error_message quote e =
    bytes "authorization denied: subject="
    ++ quote e.subject
    ++ bytes " resource="
    ++ quote e.resource
    ++ bytes " action="
    ++ quote e.action
    ++ bytes " reason="
    ++ quote e.reason

unfoldable pub unwrap : AuthzError → Option Err
unwrap e = e.cause

-- `Is(target)`
unfoldable pub is : AuthzError → Err → Bool
is e err_forbidden = true
is e target = false

-- The interface Authorizer; no error is `none`.
pub record Authorizer : Type 0 where
  pub name : Text
  pub authorize : AuthzRequest → Option AuthzError

abbrev principal_of : Option Identity → Text
principal_of none = []
principal_of (some id) = id.principal

unfoldable pub allow_all : Authorizer
allow_all = record { name = bytes "allow_all"; authorize = λ req. none }

unfoldable pub deny_all : Authorizer
deny_all = record {
  name = bytes "deny_all";
  authorize = λ req. some (record {
    subject = principal_of req.subject;
    resource = req.resource;
    action = req.action;
    reason = bytes "all requests denied";
    cause = none;
  });
}

-- AuthorizerFunc
unfoldable pub authorizer_func : (AuthzRequest → Option AuthzError) → Authorizer
authorizer_func f = record { name = bytes "func"; authorize = f }
