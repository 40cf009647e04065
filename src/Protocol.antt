-- ===== src/Protocol.antt =====
-- The wire protocol of crates/ephemera-protocol.
pub mod Version
pub mod Envelope
pub mod Codec
pub mod Frames
