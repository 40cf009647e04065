-- ===== src/Protocol/Codec.antt =====
-- crates/ephemera-protocol/src/codec.rs. serde's JSON is a parameter: `to_vec` writes an envelope,
-- where it can, and `from_slice` reads one.
use ephemera_social.Base.{
  ℕ, ◌+◌, ◌*◌, ◌∷◌, ◌++◌, Option, none, some, ltb, if◌then◌else◌, length, take, drop, Bytes,
  be_bytes, Result, ok, err, as_u32,
}
use ephemera_social.Protocol.Envelope.{ProtocolEnvelope}

abbrev pub max_frame_size : ℕ
max_frame_size = 1048576

pub data CodecError : Type 0 where
  frame_too_large : (frame_size limit : ℕ) → CodecError
  serialization : CodecError

-- `u32::from_be_bytes`
abbrev pub u32_from_be_bytes : (b0 b1 b2 b3 : ℕ) → ℕ
u32_from_be_bytes b0 b1 b2 b3 = ((b0 * 256 + b1) * 256 + b2) * 256 + b3

module _ (to_vec : ProtocolEnvelope → Option Bytes)
    (from_slice : Bytes → Option ProtocolEnvelope) where
  abbrev pub encode_payload : Bytes → Bytes → Bytes × Result {0, 0} Unit CodecError
  encode_payload payload dst =
      let len = as_u32 (length payload) in
      if ltb max_frame_size len
      then (dst, err (frame_too_large len max_frame_size))
      else ((dst ++ be_bytes 4 len) ++ payload, ok tt)

  abbrev pub encode_vec : Option Bytes → Bytes → Bytes × Result {0, 0} Unit CodecError
  encode_vec none dst = (dst, err serialization)
  encode_vec (some payload) dst = encode_payload payload dst

  -- The buffer afterwards, and the result.
  unfoldable pub encode : ProtocolEnvelope → Bytes → Bytes × Result {0, 0} Unit CodecError
  unfolding be_bytes
  encode envelope dst = encode_vec (to_vec envelope) dst

  abbrev pub read_payload : Option ProtocolEnvelope → Result (Option ProtocolEnvelope) CodecError
  read_payload none = err serialization
  read_payload (some envelope) = ok (some envelope)

  -- The rest of the buffer, and the result: an envelope, none yet, or an error.
  unfoldable pub decode : Bytes → Bytes × Result (Option ProtocolEnvelope) CodecError
  decode (b0 ∷ b1 ∷ b2 ∷ b3 ∷ body) =
      let len = u32_from_be_bytes b0 b1 b2 b3 in
      if ltb max_frame_size len
      then (b0 ∷ b1 ∷ b2 ∷ b3 ∷ body, err (frame_too_large len max_frame_size))
      else if ltb (length body) len
      then (b0 ∷ b1 ∷ b2 ∷ b3 ∷ body, ok none)
      else (drop len body, read_payload (from_slice (take len body)))
  decode src = (src, ok none)

  unfoldable pub encode_bare : ProtocolEnvelope → Result Bytes CodecError
  encode_bare envelope = elim (to_vec envelope) [ none ↦ err serialization | some v ↦ ok v ]

  unfoldable pub decode_bare : Bytes → Result ProtocolEnvelope CodecError
  decode_bare bytes = elim (from_slice bytes) [ none ↦ err serialization | some e ↦ ok e ]
