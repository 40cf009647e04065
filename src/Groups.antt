-- ===== src/Groups.antt =====
-- The groups of crates/ephemera-social, and what the node lets whom do with them.
pub mod Roles
pub mod Store
pub mod Service
pub mod Owner
pub mod Bans
