-- ===== src/Gateway.antt =====
-- SocketDaim: the gateway's own wire protocol, and the pairing of frames with measurements.
pub mod Wire
pub mod Correlator
pub mod Framing
mod Pairing
mod Tests
