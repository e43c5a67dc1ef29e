-- ===== src/Auth.antt =====
-- Package auth: who makes a request, and what it may do.
pub mod Identity
pub mod Authorizer
pub mod Rbac
pub mod Authenticator
pub mod Composite
pub mod ApiKey
pub mod Context
pub mod Claims
pub mod TokenCache
pub mod Introspection
pub mod Jwt
pub mod Jwks
pub mod Registry
pub mod Factory
pub mod Tests
