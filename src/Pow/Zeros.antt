-- ===== src/Pow/Zeros.antt =====
-- The two programs count alike: `has_leading_zeros` holds exactly if the hash has as many.
use ephemera_social.Base.{
  ℕ, zero, suc, ◌+◌, ◌-◌, ◌*◌, ◌/◌, ◌%◌, ◌≤◌, ◌<◌, ◌≡◌, refl, ap, ◌∙◌, [], ◌∷◌, Bool, true, false,
  ◌&&◌, length, ltb, leb, ◌==◌, if◌then◌else◌, Bytes, IsBytes, bit_and, leading_zeros, arith,
  Bool-cases, inl, inr,
}
use ephemera_social.Pow.Argon.{all_zero, high_mask, has_leading_zeros}
use ephemera_social.Pow.Blake.{count_leading_zeros}

-- The mask test of a byte agrees with its zeros, for all bytes from `b` down and all bits.
byte_agrees : ℕ → ℕ → Bool
byte_agrees b bits =
    if bit_and b (high_mask bits) == 0
    then leb bits (leading_zeros b)
    else ltb (leading_zeros b) bits

bits_agree : ℕ → ℕ → Bool
bits_agree b zero = byte_agrees b 0
bits_agree b (suc bits) = if byte_agrees b (suc bits) then bits_agree b bits else false

bytes_agree : ℕ → Bool
bytes_agree zero = bits_agree 0 7
bytes_agree (suc b) = if bits_agree (suc b) 7 then bytes_agree b else false

all_agree : bytes_agree 255 ≡ true
unfolding bytes_agree bits_agree byte_agrees leading_zeros
all_agree = refl

byte_row : (top b : ℕ) → bytes_agree top ≡ true → b ≤ top → bits_agree b 7 ≡ true
unfolding bytes_agree
byte_row zero b t l = ground arith
byte_row (suc top) b t l = ground (arith, byte_row top b)

bits_cell : (b top bits : ℕ) → bits_agree b top ≡ true → bits ≤ top → byte_agrees b bits ≡ true
unfolding bits_agree
bits_cell b zero bits t l = ground arith
bits_cell b (suc top) bits t l = ground (arith, bits_cell b top bits)

mask_zeros :
    (b bits : ℕ)
    → b < 256
    → bits ≤ 7
    → (bit_and b (high_mask bits) == 0) ≡ leb bits (leading_zeros b)
unfolding byte_agrees
mask_zeros b bits h l =
    ground (arith, bits_cell b 7 bits (byte_row 255 b all_agree (omega arith)) l)

byte_zero : (b : ℕ) → b < 256 → (b == 0) ≡ leb 8 (leading_zeros b)
unfolding leading_zeros
byte_zero b h = ground arith

-- The tests of the full bytes, of the rest, and the length, byte by byte.
zeros_step :
    (b : ℕ) (bs : Bytes) (bits : ℕ)
    → has_leading_zeros (b ∷ bs) (8 + bits) ≡ ((b == 0) && has_leading_zeros bs bits)
unfolding has_leading_zeros all_zero
zeros_step b bs bits =
    let quotient : (8 + bits) / 8 ≡ suc (bits / 8) = omega arith in
    let rest : (8 + bits) % 8 ≡ bits % 8 = omega arith in rw (quotient, rest) (ground arith)

zeros_first :
    (b : ℕ) (bs : Bytes) (bits : ℕ)
    → b < 256
    → bits < 8
    → has_leading_zeros (b ∷ bs) bits ≡ leb bits (leading_zeros b)
unfolding has_leading_zeros all_zero
zeros_first b bs bits h l =
    let quotient : bits / 8 ≡ 0 = omega arith in
    let rest : bits % 8 ≡ bits = omega arith in
    rw (quotient, rest) (ground (arith, mask_zeros b bits))

no_zeros : has_leading_zeros [] 0 ≡ true
unfolding has_leading_zeros all_zero
no_zeros = refl

-- Up to all bits of the hash, `has_leading_zeros` of ephemera-crypto tests what
-- `count_leading_zeros` of ephemera-abuse counts.
pub has_leading_zeros-count :
    (hash : Bytes) (bits : ℕ)
    → IsBytes hash
    → bits ≤ 8 * length hash
    → has_leading_zeros hash bits ≡ leb bits (count_leading_zeros hash)
unfolding count_leading_zeros
has_leading_zeros-count [] bits h l =
    let none_asked : bits ≡ 0 = omega arith in rw none_asked no_zeros
has_leading_zeros-count (b ∷ bs) bits h l = elim (Bool-cases (ltb bits 8)) [
  | inl small ↦ ground (arith, small, zeros_first b bs bits h.0, byte_zero b h.0)
  | inr large ↦
      let split : bits ≡ 8 + (bits - 8) = ground arith in
      let ih = has_leading_zeros-count bs (bits - 8) h.1 (omega (arith, split)) in
      let step = zeros_step b bs (bits - 8) in
      ap (has_leading_zeros (b ∷ bs)) split ∙ step ∙ ground (arith, large, ih, byte_zero b h.0)
]
