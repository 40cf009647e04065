-- ===== src/Moderation.antt =====
-- crates/ephemera-mod: reports, and the filter that content passes.
pub mod Report
pub mod Filter
