-- ===== src/Pow.antt =====
-- Proof of work: crates/ephemera-crypto/src/pow.rs, which handles use, and
-- crates/ephemera-abuse/src/pow.rs.
pub mod Argon
pub mod Blake
pub mod Zeros
pub mod Mining
