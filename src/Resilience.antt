-- ===== src/Resilience.antt =====
-- Package resilience: the patterns that wrap an operation.
pub mod Operation
pub mod Circuit
pub mod Retry
pub mod Bulkhead
pub mod Timeout
pub mod RateLimit
pub mod Executor
pub mod Tests
