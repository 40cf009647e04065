-- ===== src/Signing.antt =====
-- What the other parts ask of Ed25519 (the crate ed25519-dalek, and with it the signing side of
-- crates/ephemera-crypto/src/signing.rs): an interface with the one law they rely on.
use ephemera_social.Base.{◌≡◌, Bool, true, Bytes}

pub record Signing : Type 0 where
  -- The public key of a secret one.
  pub public_key : Bytes → Bytes
  pub sign : (secret message : Bytes) → Bytes
  pub verify : (key message signature : Bytes) → Bool
  -- What a secret key signed verifies under its public key.
  pub verify_sign :
      (secret message : Bytes) → verify (public_key secret) message (sign secret message) ≡ true
