-- ===== src/Secret.antt =====
-- Package secret: references to secrets and to environment variables in configuration values.
pub mod ExpandEnv
pub mod Ref
pub mod Resolver
pub mod Registry
pub mod Tests
