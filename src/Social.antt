-- ===== src/Social.antt =====
-- crates/ephemera-social: connections, blocks and mutes.
pub mod Graph
pub mod Blocked
pub mod Handshake
