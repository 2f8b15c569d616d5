-- ===== src/Protocol.antt =====
-- protocol.go: the frame that every message travels in, and the identifiers.
pub mod Slice
pub mod Header
pub mod NodeId
pub mod Constants
pub mod Messages
