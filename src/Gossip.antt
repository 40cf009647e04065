-- ===== src/Gossip.antt =====
-- crates/ephemera-gossip: the PlumTree engine, its peers and its memory of messages.
pub mod Topic
pub mod Peers
pub mod Dedup
pub mod Engine
