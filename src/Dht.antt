-- ===== src/Dht.antt =====
-- crates/ephemera-dht: the routing table, the record storage and the iterative lookup.
pub mod Bucket
pub mod Routing
pub mod Record
pub mod Storage
pub mod Query
