-- ===== src/Types/NodeId.antt =====
-- `NodeId` of crates/ephemera-types/src/identity.rs: 32 bytes, with the distance of Kademlia.
use ephemera_social.Base.{
  ℕ, ◌<◌, ◌≡◌, Option, none, some, Bytes, IsBytes, length, xor_bytes, first_bit, first_bit_bound,
  first_bit-xor, length-xor_bytes, arith,
}

abbrev pub NodeId : Type 0
NodeId = Bytes

-- What `[u8; 32]` gives.
abbrev pub IsNodeId : NodeId → Type 0
IsNodeId id = IsBytes id × (length id ≡ 32)

unfoldable pub xor_distance : NodeId → NodeId → Bytes
xor_distance a b = xor_bytes a b

unfoldable pub leading_zeros_distance : NodeId → NodeId → Option ℕ
unfolding xor_distance
leading_zeros_distance a b = first_bit 0 (xor_distance a b)

-- On two node ids the index is one of the 256 bits, so that it can be used as the number of a
-- bucket.
pub leading_zeros_distance_bound :
    (a b : NodeId) {n : ℕ} → IsNodeId a → IsNodeId b → leading_zeros_distance a b ≡ some n → n < 256
unfolding leading_zeros_distance xor_distance
leading_zeros_distance_bound a b h k e =
    omega (arith, first_bit_bound 0 (xor_bytes a b) e, length-xor_bytes a b, h, k)

pub eq_of_leading_zeros_distance :
    (a b : NodeId) → IsNodeId a → IsNodeId b → leading_zeros_distance a b ≡ none → a ≡ b
unfolding leading_zeros_distance xor_distance
eq_of_leading_zeros_distance a b h k e = first_bit-xor 0 a b h.0 k.0 (omega arith) e
