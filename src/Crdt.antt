-- ===== src/Crdt.antt =====
-- crates/ephemera-crdt: the clock and the replicated data types that merge without coordination.
pub mod Clock
pub mod GCounter
pub mod LwwRegister
pub mod OrSet
