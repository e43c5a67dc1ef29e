-- ===== src/Observe.antt =====
-- Packages observe and observe/exporters: telemetry of tool executions.
pub mod Meta
pub mod Span
pub mod Metrics
pub mod Logger
pub mod Middleware
pub mod Config
pub mod Exporters
pub mod Observer
pub mod Tests
