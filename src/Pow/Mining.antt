-- ===== src/Pow/Mining.antt =====
-- Mining finds what verification accepts, once a fitting nonce is in reach.
use ephemera_social.Base.{
  ℕ, zero, suc, ◌+◌, ◌≤◌, ◌<◌, ◌≡◌, ◌≢◌, ◌↔◌, refl, ap, ◌++◌, some, true, ltb, if◌then◌else◌,
  list_ord, nat_ord, list_self, list_eq, Bytes, arith, Bool-cases, inl, inr,
}
use ephemera_social.Pow.Argon.{
  PowStamp, found, mine, generate_pow, verify_pow, has_leading_zeros, nonce_at, ok, err,
  below_minimum,
}
use ephemera_social.Pow.Blake
use ephemera_social.Pow.Blake.{PowChallenge, count_leading_zeros}

module _ (pow_hash : Bytes → Bytes → Bytes) where
  -- A nonce fits that the rounds from `counter` on reach.
  mine-found :
      (rounds counter k : ℕ) (challenge : Bytes) (difficulty : ℕ)
      → counter ≤ k
      → k < counter + rounds
      → has_leading_zeros (pow_hash challenge (nonce_at k)) difficulty ≡ true
      → (s : PowStamp) × (mine pow_hash rounds challenge difficulty counter ≡ found s)
        × (s.challenge ≡ challenge)
        × (s.difficulty ≡ difficulty)
        × (has_leading_zeros (pow_hash challenge s.nonce) difficulty ≡ true)
  unfolding mine
  mine-found zero counter k challenge difficulty h l fits = absurd (omega arith)
  mine-found (suc rounds) counter k challenge difficulty h l fits =
      elim (Bool-cases (has_leading_zeros (pow_hash challenge (nonce_at counter)) difficulty)) [
        | inl now ↦ (
          record { challenge = challenge; nonce = nonce_at counter; difficulty = difficulty },
          rw now refl,
          refl,
          refl,
          now,
        )
        | inr not_yet ↦
            let passed : counter ≢ k = λ e. absurd (ground (arith, not_yet, fits, ap nonce_at e)) in
            let later =
              mine-found rounds (counter + 1) k challenge difficulty (omega (arith, passed))
                (omega arith) fits in
            let (s, e, c, d, z) = later in (s, rw not_yet e, c, d, z)
      ]

  -- Where some nonce below the number of rounds fits, `generate_pow` returns a stamp for the
  -- challenge, and `verify_pow` accepts it for every minimum up to the difficulty, but for no other
  -- challenge and no higher minimum.
  pub generate_pow-verify :
      (rounds k : ℕ) (challenge other : Bytes) (difficulty minimum : ℕ)
      → difficulty ≤ 256
      → k < rounds
      → has_leading_zeros (pow_hash challenge (nonce_at k)) difficulty ≡ true
      → (s : PowStamp) × (generate_pow pow_hash rounds challenge difficulty ≡ found s)
        × ((verify_pow pow_hash s other minimum ≡ ok)
            ↔ ((other ≡ challenge) × (minimum ≤ difficulty)))
  unfolding generate_pow verify_pow
  generate_pow-verify rounds k challenge other difficulty minimum d h fits =
      let (s, e, c, f, z) =
        mine-found rounds 0 k challenge difficulty (omega arith) (omega arith) fits in
      (
        s,
        ground (arith, e),
        ground (
          arith,
          c,
          f,
          z,
          list_self {A = ℕ} challenge,
          list_eq {A = ℕ} challenge other,
          list_eq {A = ℕ} s.challenge other,
        ),
      )

module _ (pow_hash : Bytes → Bytes → Bytes) where
  mine-fits :
      (rounds counter : ℕ) (challenge : Bytes) (difficulty : ℕ) (s : PowStamp)
      → mine pow_hash rounds challenge difficulty counter ≡ found s
      → (s.challenge ≡ challenge)
        × (s.difficulty ≡ difficulty)
        × (has_leading_zeros (pow_hash challenge s.nonce) difficulty ≡ true)
  unfolding mine
  mine-fits zero counter challenge difficulty s h = absurd (cc)
  mine-fits (suc rounds) counter challenge difficulty s h =
      ground (arith, mine-fits rounds (counter + 1) challenge difficulty s)

  -- What is mined for a challenge verifies for it, with every minimum that is not above the
  -- difficulty, and with no other.
  pub generate_pow-fits :
      (rounds : ℕ) (challenge : Bytes) (difficulty minimum : ℕ) (s : PowStamp)
      → generate_pow pow_hash rounds challenge difficulty ≡ found s
      → verify_pow pow_hash s challenge minimum
        ≡ (if ltb difficulty minimum then err below_minimum else ok)
  unfolding generate_pow verify_pow
  generate_pow-fits rounds challenge difficulty minimum s h = ground (
    arith,
    mine-fits rounds 0 challenge difficulty s,
    list_self {A = ℕ} challenge,
    list_self {A = ℕ} s.challenge,
  )

module _ (blake3 : Bytes → Bytes) where
  mine-accepted :
      (rounds counter : ℕ) (c : PowChallenge) (s : Blake.PowStamp)
      → Blake.mine blake3 rounds c counter ≡ some s
      → Blake.verify blake3 c.content s ≡ Blake.Verified.ok
  unfolding Blake.mine Blake.verify
  mine-accepted zero counter c s h = absurd (cc)
  mine-accepted (suc rounds) counter c s h = ground (
    arith,
    mine-accepted rounds (counter + 1) c s,
    list_self {A = ℕ} (blake3 (c.content ++ Blake.nonce_at counter)),
  )

  -- What the generator of ephemera-abuse returns, after however many rounds, its verifier accepts.
  -- The verifier accepts a stamp exactly if its hash is that of the content with its nonce and has
  -- the zeros that the stamp itself claims: it knows no minimum.
  pub generate-verify :
      (rounds : ℕ) (c : PowChallenge) (s stamp : Blake.PowStamp) (content : Bytes)
      → Blake.generate blake3 rounds c ≡ some s
      → (Blake.verify blake3 c.content s ≡ Blake.Verified.ok)
        × ((Blake.verify blake3 content stamp ≡ Blake.Verified.ok) ↔ (
            (blake3 (content ++ stamp.nonce) ≡ stamp.hash)
            × (stamp.difficulty ≤ count_leading_zeros stamp.hash)))
  unfolding Blake.generate Blake.verify
  generate-verify rounds c s stamp content h = (
    mine-accepted rounds 0 c s h,
    ground (
      arith,
      list_self {A = ℕ} stamp.hash,
      list_eq {A = ℕ} (blake3 (content ++ stamp.nonce)) stamp.hash,
    ),
  )
