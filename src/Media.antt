-- ===== src/Media.antt =====
-- The media pipeline of crates/ephemera-media, as far as it decides on bytes.
pub mod Chunker
