-- ===== src/Contracts.antt =====
-- The event contracts (libs/contracts/src/events). A schema is a reader of JSON into `Option`;
-- `parse` throws a ZodError where it is `none`, and `safeParse` tests it.
pub mod Envelope
pub mod OrderCreated
pub mod OrderCancelled
pub mod ShipmentStatusChanged
pub mod Acceptance
