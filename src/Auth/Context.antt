-- ===== src/Auth/Context.antt =====
-- auth/context.go and auth/transport.go: what a context carries of a request. A context is the values that
-- were attached with context.WithValue, the last one first; `V` is the values of other packages.
pub mod Layers
use toolops.Base.{Option, none, some, List, [], ◌∷◌}
use toolops.Base.Text.{Text}
use toolops.Base.StringMap.{StringMap, lookup}
use toolops.Auth.Identity.{Identity}
use toolops.Auth.Authenticator.{first_value}

-- A nil identity and a nil map are `none`.
pub data Attached (V : Type 0) : Type 0 where
  identity_value : Option Identity → Attached V
  headers_value : Option (StringMap (List Text)) → Attached V
  foreign : V → Attached V

abbrev pub Context : Type 0 → Type 0
Context V = List (Attached V)

-- An http.Request: the fields that are read.
pub record Request (V : Type 0) : Type 0 where
  pub context : Context V
  pub header : Option (StringMap (List Text))

module _ {V : Type 0} where
  unfoldable pub with_identity : Context V → Option Identity → Context V
  with_identity ctx id = identity_value id ∷ ctx

  -- `ctx.Value(identityKey)`, with its type assertion.
  unfoldable pub identity_from_context : Context V → Option Identity
  identity_from_context [] = none
  identity_from_context (identity_value id ∷ ctx) = id
  identity_from_context (headers_value headers ∷ ctx) = identity_from_context ctx
  identity_from_context (foreign v ∷ ctx) = identity_from_context ctx

  unfoldable pub principal_from_context : Context V → Text
  unfolding identity_from_context
  principal_from_context ctx = elim (identity_from_context ctx) [
    | none ↦ []
    | some id ↦ id.principal
  ]

  unfoldable pub tenant_id_from_context : Context V → Text
  unfolding identity_from_context
  tenant_id_from_context ctx = elim (identity_from_context ctx) [
    | none ↦ []
    | some id ↦ id.tenant_id
  ]

  unfoldable pub with_headers : Context V → Option (StringMap (List Text)) → Context V
  with_headers ctx headers = headers_value headers ∷ ctx

  unfoldable pub headers_from_context : Context V → Option (StringMap (List Text))
  headers_from_context [] = none
  headers_from_context (identity_value id ∷ ctx) = headers_from_context ctx
  headers_from_context (headers_value headers ∷ ctx) = headers
  headers_from_context (foreign v ∷ ctx) = headers_from_context ctx

  unfoldable pub get_header : Context V → Text → Text
  unfolding headers_from_context lookup
  get_header ctx key = elim (headers_from_context ctx) [
    | none ↦ []
    | some headers ↦ first_value (lookup key headers)
  ]

  -- WithAuthHeaders: what the next handler is given, `serve` being that handler.
  unfoldable pub with_auth_headers : {R : Type 0} → (Request V → R) → Request V → R
  unfolding with_headers
  with_auth_headers serve r = serve (record r { context = with_headers r.context r.header })
