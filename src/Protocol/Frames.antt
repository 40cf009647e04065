-- ===== src/Protocol/Frames.antt =====
-- A stream of frames is read as it was written.
use ephemera_social.Base.{
  ℕ, zero, suc, ◌+◌, ◌%◌, ◌/◌, ◌≤◌, ◌<◌, ◌≡◌, refl, sym, ap, ◌∙◌, List, [], ◌∷◌, ◌++◌, Option, none,
  some, Bool, true, false, ◌&&◌, All, length, take, Bytes, be_bytes, Result, ok, err, arith,
  take-append, drop-append, length-append, length-take,
}
use mathlib.Core.List.{append_assoc, append-nil}
use ephemera_social.Protocol.Envelope.{ProtocolEnvelope}
use ephemera_social.Protocol.Codec.{
  max_frame_size, CodecError, u32_from_be_bytes, encode, decode, read_payload,
}

-- The four bytes of a length give it back.
prefix_bytes :
    (n : ℕ) (rest : Bytes)
    → n < 4294967296
    → (b0 b1 b2 b3 : ℕ) × (be_bytes 4 n ++ rest ≡ b0 ∷ b1 ∷ b2 ∷ b3 ∷ rest)
      × (u32_from_be_bytes b0 b1 b2 b3 ≡ n)
unfolding be_bytes
prefix_bytes n rest h =
    (n / 256 / 256 / 256 % 256, n / 256 / 256 % 256, n / 256 % 256, n % 256, refl, omega arith)

module _ (to_vec : ProtocolEnvelope → Option Bytes)
    (from_slice : Bytes → Option ProtocolEnvelope) where
  decode-frame :
      (payload rest : Bytes)
      → length payload ≤ max_frame_size
      → decode to_vec from_slice (be_bytes 4 (length payload) ++ (payload ++ rest))
        ≡ (rest, read_payload to_vec from_slice (from_slice payload))
  unfolding decode
  decode-frame payload rest h =
      let (b0, b1, b2, b3, e, n) = prefix_bytes (length payload) (payload ++ rest) (omega arith) in
      rw e (
        ground (
          arith,
          n,
          length-append payload rest,
          take-append payload rest,
          drop-append payload rest,
        ))

  partial :
      (b0 b1 b2 b3 : ℕ) (payload : Bytes) (n : ℕ)
      → u32_from_be_bytes b0 b1 b2 b3 ≡ length payload
      → length payload ≤ max_frame_size
      → n < 4 + length payload
      → decode to_vec from_slice (take n (b0 ∷ b1 ∷ b2 ∷ b3 ∷ payload))
        ≡ (take n (b0 ∷ b1 ∷ b2 ∷ b3 ∷ payload), ok none)
  unfolding decode
  partial b0 b1 b2 b3 payload zero v l h = refl
  partial b0 b1 b2 b3 payload (suc zero) v l h = refl
  partial b0 b1 b2 b3 payload (suc (suc zero)) v l h = refl
  partial b0 b1 b2 b3 payload (suc (suc (suc zero))) v l h = refl
  partial b0 b1 b2 b3 payload (suc (suc (suc (suc n)))) v l h =
      ground (arith, length-take n payload, v, l)

  -- A frame that `encode` appended is what `decode` takes off the front of the buffer.
  encode-frame :
      (e : ProtocolEnvelope) (payload dst : Bytes)
      → to_vec e ≡ some payload
      → length payload ≤ max_frame_size
      → encode to_vec from_slice e dst ≡ ((dst ++ be_bytes 4 (length payload)) ++ payload, ok tt)
  unfolding encode
  encode-frame e payload dst h l = ground (arith, h, l)

  abbrev went_well : Result {0, 0} Unit CodecError → Bool
  went_well (ok _) = true
  went_well (err _) = false

  -- Envelopes written one after the other, and whether all could be.
  unfoldable pub encode_all : List ProtocolEnvelope → Bytes → Bytes × Bool
  encode_all [] dst = (dst, true)
  encode_all (e ∷ es) dst =
      let next = encode to_vec from_slice e dst in
      let rest = encode_all es next.0 in (rest.0, went_well next.1 && rest.1)

  abbrev and_rest :
      Bytes × Result (Option ProtocolEnvelope) CodecError
      → Bytes × List ProtocolEnvelope
      → Bytes × List ProtocolEnvelope
  and_rest (src, ok (some e)) rest = (rest.0, e ∷ rest.1)
  and_rest (src, ok none) rest = (src, [])
  and_rest (src, err _) rest = (src, [])

  -- So many calls of `decode`, up to the first that gives no envelope.
  unfoldable pub decode_all : ℕ → Bytes → Bytes × List ProtocolEnvelope
  decode_all zero src = (src, [])
  decode_all (suc n) src =
      let rest = decode_all n (decode to_vec from_slice src).0 in
      and_rest (decode to_vec from_slice src) rest

  -- serde writes the envelope in a frame's limit and reads it back.
  abbrev pub Sendable : ProtocolEnvelope → Type 0
  Sendable e =
      (payload : Bytes) × (to_vec e ≡ some payload)
      × (from_slice payload ≡ some e)
      × (length payload ≤ max_frame_size)

  frames : (es : List ProtocolEnvelope) → All Sendable es → Bytes
  frames [] a = []
  frames (e ∷ es) ((p, w, r, l), a) = be_bytes 4 (length p) ++ (p ++ frames es a)

  encode_all-frames :
      (es : List ProtocolEnvelope) (a : All Sendable es) (dst : Bytes)
      → encode_all es dst ≡ (dst ++ frames es a, true)
  unfolding encode_all frames
  encode_all-frames [] a dst = ap (λ b. (b, true)) (sym (append-nil dst))
  encode_all-frames (e ∷ es) ((p, w, r, l), a) dst =
      let next = encode-frame e p dst w l in
      let split : ((dst ++ be_bytes 4 (length p)) ++ p) ++ frames es a
          ≡ dst ++ (be_bytes 4 (length p) ++ (p ++ frames es a)) =
        append_assoc (dst ++ be_bytes 4 (length p)) p (frames es a)
        ∙ append_assoc dst (be_bytes 4 (length p)) (p ++ frames es a) in
      rw next
        (encode_all-frames es a ((dst ++ be_bytes 4 (length p)) ++ p) ∙ ap (λ b. (b, true)) split)

  decode_all-frames :
      (es : List ProtocolEnvelope) (a : All Sendable es) (tail : Bytes)
      → decode_all (length es) (frames es a ++ tail) ≡ (tail, es)
  unfolding decode_all frames
  decode_all-frames [] a tail = refl
  decode_all-frames (e ∷ es) ((p, w, r, l), a) tail =
      let rest = frames es a ++ tail in
      let src : frames (e ∷ es) ((p, w, r, l), a) ++ tail ≡ be_bytes 4 (length p) ++ (p ++ rest) =
        append_assoc (be_bytes 4 (length p)) (p ++ frames es a) tail
        ∙ ap (λ b. be_bytes 4 (length p) ++ b) (append_assoc p (frames es a) tail) in
      let first : decode to_vec from_slice (be_bytes 4 (length p) ++ (p ++ rest))
          ≡ (rest, ok (some e)) =
        decode-frame p rest l ∙ ap (λ o. (rest, read_payload to_vec from_slice o)) r in
      ap (decode_all (suc (length es))) src
      ∙ ap (λ d. and_rest d (decode_all (length es) d.0)) first
      ∙ ap (λ d. (d.0, e ∷ d.1)) (decode_all-frames es a tail)

  -- From a buffer that holds only a part of a frame `decode` takes nothing: it gives no envelope and no
  -- error, and leaves the buffer as it is.
  pub decode-partial :
      (payload : Bytes) (n : ℕ)
      → length payload ≤ max_frame_size
      → n < 4 + length payload
      → decode to_vec from_slice (take n (be_bytes 4 (length payload) ++ payload))
        ≡ (take n (be_bytes 4 (length payload) ++ payload), ok none)
  unfolding decode
  decode-partial payload n l h =
      let (b0, b1, b2, b3, e, v) = prefix_bytes (length payload) payload (omega arith) in
      rw e (partial b0 b1 b2 b3 payload n v l h)

  -- Envelopes that were written one after the other behind an empty buffer are read back in their
  -- order, and what follows them stays in the buffer. (serde must read back what it wrote, and each
  -- payload must fit a frame.)
  pub decode_all-encode_all :
      (es : List ProtocolEnvelope) (tail : Bytes)
      → All Sendable es
      → ((encode_all es []).1 ≡ true)
        × (decode_all (length es) ((encode_all es []).0 ++ tail) ≡ (tail, es))
  decode_all-encode_all es tail a =
      let e = encode_all-frames es a [] in
      (
        ap (λ r. r.1) e,
        ap (λ r. decode_all (length es) (r.0 ++ tail)) e ∙ decode_all-frames es a tail,
      )
