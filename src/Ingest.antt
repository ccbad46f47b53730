-- ===== src/Ingest.antt =====
-- SocketDaim/ingestion_gateway in its standard protocol, with the messages and the sessions of gw_proto.
pub mod Message
pub mod Session
pub mod Tables
pub mod Handlers
pub mod Video
pub mod Sensor
pub mod Dispatch
pub mod Chunks
pub mod Upload
pub mod Completion
pub mod Connection
pub mod OverWire
pub mod Delivery
pub mod Refusals
mod Tests
