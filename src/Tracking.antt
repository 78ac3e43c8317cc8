-- ===== src/Tracking.antt =====
-- The tracking service (apps/tracking-service/src).
pub mod ProcessedMessages
pub mod Shipment
pub mod Client
pub mod OutboxRepository
pub mod Service
pub mod OrderCreatedConsumer
pub mod Http
pub mod Main
pub mod Config
