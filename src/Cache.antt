-- ===== src/Cache.antt =====
-- Package cache: results of tools, kept for a time.
pub mod Timed
pub mod Policy
pub mod Key
pub mod Memory
pub mod Middleware
pub mod Keyer
pub mod Tests
