-- ===== src/Egress.antt =====
-- SocketDaim/egress_gateway: each decision becomes one row of the LOAS table t_inspection.
pub mod Row
pub mod Outbox
pub mod Sender
pub mod Service
mod Delivery
mod Rounds
mod Storing
mod Once
mod Loss
mod Tests
