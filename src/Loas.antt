-- ===== src/Loas.antt =====
-- SocketDaim/libs/gw_proto/gw_proto/codec/loas and the two LOAS listeners of gw_proto/transport.
pub mod Words
pub mod DustFraming
pub mod DustServer
pub mod CctvFraming
pub mod CctvServer
pub mod DustXml
pub mod DustTags
pub mod DustRevisions
pub mod Store
pub mod Gate
pub mod Gating
pub mod Jpgs
mod Tests
mod StorageTests
