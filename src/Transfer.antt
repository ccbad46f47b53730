-- ===== src/Transfer.antt =====
-- PoolerTran: the consumer that sends the CCTV frames of a waypoint as one batch.
pub mod Floats
pub mod Response
pub mod Tables
pub mod Queue
pub mod Batch
pub mod Transition
pub mod Contents
pub mod Failure
pub mod Delivery
pub mod Claims
pub mod Quiet
pub mod Overflow
pub mod Idempotence
mod Tests
