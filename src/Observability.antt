-- ===== src/Observability.antt =====
-- The observability library (libs/observability/src).
pub mod Correlation
pub mod Tracing
pub mod Logging
