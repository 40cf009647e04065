-- ===== src/Pow/Blake.antt =====
-- crates/ephemera-abuse/src/pow.rs: stamps over BLAKE3, which is a parameter.
use ephemera_social.Base.{
  ℕ, zero, suc, ◌+◌, [], ◌∷◌, ◌++◌, Option, none, some, not, ltb, leb, ◌==◌, min, if◌then◌else◌,
  same, list_ord, nat_ord, Bytes, leading_zeros, le_bytes, replicate,
}

-- `PowDifficulty::adjusted`
unfoldable pub adjusted : ℕ → ℕ → ℕ
adjusted base recent_actions =
    min
      (base
        + (if leb recent_actions 10
            then 0
            else if leb recent_actions 50
            then 1
            else if leb recent_actions 200
            then 2
            else 3))
      30

pub record PowChallenge : Type 0 where
  pub content : Bytes
  pub difficulty : ℕ

pub record PowStamp : Type 0 where
  pub nonce : Bytes
  pub hash : Bytes
  pub difficulty : ℕ

-- The loop of `count_leading_zeros`, which stops at the first byte that is not zero.
unfoldable pub count_leading_zeros : Bytes → ℕ
unfolding leading_zeros
count_leading_zeros [] = 0
count_leading_zeros (b ∷ bs) = if b == 0 then 8 + count_leading_zeros bs else leading_zeros b

unfoldable pub nonce_at : ℕ → Bytes
unfolding le_bytes
nonce_at counter = le_bytes 8 counter ++ replicate 24 0

pub data PowError : Type 0 where
  hash_mismatch : PowError
  insufficient_difficulty : (needed got : ℕ) → PowError

pub data Verified : Type 0 where
  ok : Verified
  err : PowError → Verified

module _ (blake3 : Bytes → Bytes) where
  abbrev pub compute_hash : Bytes → Bytes → Bytes
  compute_hash content nonce = blake3 (content ++ nonce)

  -- The loop of `generate`, from a counter on; `none` while no nonce was found.
  unfoldable pub mine : ℕ → PowChallenge → ℕ → Option PowStamp
  unfolding count_leading_zeros nonce_at
  mine zero challenge counter = none
  mine (suc rounds) challenge counter =
      let later = mine rounds challenge (counter + 1) in
      let hash = compute_hash challenge.content (nonce_at counter) in
      if leb challenge.difficulty (count_leading_zeros hash)
      then some
          (record { nonce = nonce_at counter; hash = hash; difficulty = challenge.difficulty })
      else later

  unfoldable pub generate : ℕ → PowChallenge → Option PowStamp
  unfolding mine
  generate rounds challenge = mine rounds challenge 0

  unfoldable pub verify : Bytes → PowStamp → Verified
  unfolding count_leading_zeros
  verify content stamp =
      let hash = compute_hash content stamp.nonce in
      if not (same hash stamp.hash)
      then err hash_mismatch
      else if ltb (count_leading_zeros hash) stamp.difficulty
      then err (insufficient_difficulty stamp.difficulty (count_leading_zeros hash))
      else ok
