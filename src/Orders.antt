-- ===== src/Orders.antt =====
-- The order service (apps/order-service/src).
pub mod Item
pub mod Order
pub mod PrismaOutboxStore
pub mod Publisher
pub mod Repository
pub mod Commands
pub mod Handlers
pub mod Http
pub mod CircuitBreakers
pub mod ShipmentQuery
