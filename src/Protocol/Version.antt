-- ===== src/Protocol/Version.antt =====
-- crates/ephemera-protocol/src/version.rs.
use ephemera_social.Base.{ℕ, Bool, ◌&&◌, ◌==◌}

pub record ProtocolVersion : Type 0 where
  pub major : ℕ
  pub minor : ℕ

abbrev pub current : ProtocolVersion
current = record { major = 1; minor = 0 }

unfoldable pub is_compatible_with : ProtocolVersion → ProtocolVersion → Bool
is_compatible_with self other = self.major == other.major

unfoldable pub is_exact_match : ProtocolVersion → ProtocolVersion → Bool
is_exact_match self other = self.major == other.major && self.minor == other.minor
