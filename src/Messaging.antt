-- ===== src/Messaging.antt =====
-- The messaging library (libs/messaging/src).
pub mod EnvelopeBuilder
pub mod Outbox
pub mod OutboxTable
pub mod Relay
pub mod RabbitMqClient
pub mod Transaction
pub mod Consumer
pub mod ProcessedStore
