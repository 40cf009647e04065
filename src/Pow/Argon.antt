-- ===== src/Pow/Argon.antt =====
-- crates/ephemera-crypto/src/pow.rs: stamps over a memory-hard hash. Argon2id is a parameter, a
-- function of the challenge and the nonce.
use ephemera_social.Base.{
  ℕ, zero, suc, ◌+◌, ◌-◌, ◌*◌, ◌/◌, ◌%◌, ◌^◌, [], ◌∷◌, ◌++◌, Option, none, some, Bool, true, false,
  not, ◌&&◌, length, take, ltb, ◌==◌, min, if◌then◌else◌, same, list_ord, nat_ord, Bytes, bit_and,
  le_bytes, get_elem?, replicate,
}

pub record PowStamp : Type 0 where
  pub challenge : Bytes
  pub nonce : Bytes
  pub difficulty : ℕ

-- The loop over `hash[..full_bytes.min(hash.len())]`.
unfoldable pub all_zero : Bytes → Bool
all_zero [] = true
all_zero (b ∷ bs) = if b == 0 then all_zero bs else false

-- `0xFFu8 << (8 - remaining_bits)`
abbrev pub high_mask : ℕ → ℕ
high_mask bits = 255 * 2 ^ (8 - bits) % 256

-- The test of the byte after the full ones, if the hash has it.
abbrev pub rest_clear : ℕ → Option ℕ → Bool
rest_clear bits none = true
rest_clear bits (some b) = bit_and b (high_mask bits) == 0

unfoldable pub has_leading_zeros : Bytes → ℕ → Bool
unfolding all_zero
has_leading_zeros hash difficulty =
    let full_bytes = difficulty / 8 in
    let remaining_bits = difficulty % 8 in
    if not (all_zero (take (min full_bytes (length hash)) hash))
    then false
    else if ltb 0 remaining_bits && ltb full_bytes (length hash)
    then rest_clear remaining_bits (get_elem? hash full_bytes)
    else true

-- The nonce of a round: the counter in its first eight bytes.
unfoldable pub nonce_at : ℕ → Bytes
unfolding le_bytes
nonce_at counter = le_bytes 8 counter ++ replicate 8 0

-- What the rounds give: a stamp, or nothing yet. Above 256 bits the program panics.
pub data Mined : Type 0 where
  found : PowStamp → Mined
  running : Mined
  panicked : Mined

pub data PowError : Type 0 where
  challenge_mismatch below_minimum unmet : PowError

pub data Verified : Type 0 where
  ok : Verified
  err : PowError → Verified

module _ (pow_hash : Bytes → Bytes → Bytes) where
  -- The loop of `generate_pow`, from a counter on, for as many rounds.
  unfoldable pub mine : ℕ → Bytes → ℕ → ℕ → Mined
  unfolding has_leading_zeros nonce_at
  mine zero challenge difficulty counter = running
  mine (suc rounds) challenge difficulty counter =
      let later = mine rounds challenge difficulty (counter + 1) in
      if has_leading_zeros (pow_hash challenge (nonce_at counter)) difficulty
      then found
          (record { challenge = challenge; nonce = nonce_at counter; difficulty = difficulty })
      else later

  unfoldable pub generate_pow : ℕ → Bytes → ℕ → Mined
  unfolding mine
  generate_pow rounds challenge difficulty =
      if ltb 256 difficulty then panicked else mine rounds challenge difficulty 0

  unfoldable pub verify_pow : PowStamp → Bytes → ℕ → Verified
  unfolding has_leading_zeros
  verify_pow stamp expected_challenge min_difficulty =
      if not (same stamp.challenge expected_challenge)
      then err challenge_mismatch
      else if ltb stamp.difficulty min_difficulty
      then err below_minimum
      else if not (has_leading_zeros (pow_hash stamp.challenge stamp.nonce) stamp.difficulty)
      then err unmet
      else ok
