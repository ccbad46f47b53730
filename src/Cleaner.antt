-- ===== src/Cleaner.antt =====
-- SocketDaim/cleaner: retention by age, and the purge of camera frames under disk pressure.
pub mod Videos
pub mod Frames
pub mod Service
mod Schedule
mod Deletion
mod Retention
mod Unlinking
mod Sweep
mod Safety
mod Tests
