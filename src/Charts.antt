-- ===== src/Charts.antt =====
-- Dumopro_Data_Analysis_WebApp: the buckets of a station's samples, and what subscribers are sent.
pub mod Buckets
pub mod Redis
pub mod Freezer
pub mod Task
pub mod Broadcaster
pub mod Residuals
pub mod Pumps
pub mod Silence
pub mod Queues
pub mod Slots
pub mod Polling
pub mod Grace
mod Tests
