-- ===== src/Auth/Context/Layers.antt =====
-- Identities and headers in one context.
use toolops.Base.{◌≡◌, refl, Option, []}
use toolops.Base.Text.{Text}
use toolops.Auth.Identity.{Identity}
use toolops.Auth.Authenticator
use toolops.Auth.Context.{
  Request, with_identity, identity_from_context, with_headers, headers_from_context, get_header,
  with_auth_headers,
}

-- Behind WithAuthHeaders, an identity that is attached later, or none, is the one that is read; the headers
-- are those of the request, not of an outer context, and no attached identity hides them: GetHeader gives
-- what an AuthRequest with the request's headers gives.
pub with_auth_headers_lem :
    {V : Type 0} (r : Request V) (id : Option Identity) (key resource : Text)
    → (with_auth_headers (λ (q : Request V). identity_from_context (with_identity q.context id)) r
        ≡ id)
      × (with_auth_headers (λ (q : Request V). identity_from_context q.context) r
          ≡ identity_from_context r.context)
      × (with_auth_headers (λ (q : Request V). get_header (with_identity q.context id) key) r
          ≡ Authenticator.get_header
              (record { headers = r.header; resource = resource; metadata = [] })
              key)
unfolding with_auth_headers with_identity with_headers identity_from_context get_header
    headers_from_context Authenticator.get_header
with_auth_headers_lem r id key resource = (refl, refl, refl)
