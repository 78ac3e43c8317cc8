-- ===== src/Notifications.antt =====
-- The notification service (apps/notification-service/src).
pub mod ProcessedMessages
pub mod Providers
pub mod Dispatch
pub mod Consumers
pub mod Deliveries
pub mod Readiness
