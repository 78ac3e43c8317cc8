-- ===== src/Flow.antt =====
-- The path of an event through the services: from the command that announces it, by the outbox, to
-- what its consumers make of it.
pub mod Announced
pub mod OrderPlaced
pub mod ShipmentMoved
pub mod Correlated
