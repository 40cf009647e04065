-- ===== src/Handle.antt =====
-- The handles of crates/ephemera-social: names, and the registry of who holds which.
pub mod Format
pub mod Registry
