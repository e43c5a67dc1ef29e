-- ===== src/Health.antt =====
-- Package health: checks of components, and their aggregation.
pub mod Checker
pub mod Aggregator
pub mod Memory
pub mod Http
pub mod Tests
