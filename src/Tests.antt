-- ===== src/Tests.antt =====
mod Samples
mod Database
mod Desk
mod Contracts
mod Orders
mod Relay
mod Client
mod Consumers
mod Handlers
mod Http
mod Tracking
mod Notifications
mod Flow
mod Redrive
mod Queries
mod Tracing
