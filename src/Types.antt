-- ===== src/Types.antt =====
-- crates/ephemera-types: instants, logical clocks and lifetimes.
pub mod Hlc
pub mod Ttl
pub mod NodeId
