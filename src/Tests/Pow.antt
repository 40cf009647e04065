-- ===== src/Tests/Pow.antt =====
-- Stamps at small inputs, with a stand-in for the memory-hard hash.
use ephemera_social.Base.{◌≡◌, ◌≤◌, ◌↔◌, refl, [], ◌∷◌, true, leb, Bytes, list_ord, nat_ord, arith}
use ephemera_social.Pow.Argon.{
  PowStamp, found, generate_pow, verify_pow, has_leading_zeros, nonce_at, ok,
}
use ephemera_social.Pow.Blake.{count_leading_zeros}
use ephemera_social.Pow.Zeros.{has_leading_zeros-count}
use ephemera_social.Pow.Mining.{generate_pow-verify}

abbrev five : Bytes
five = 5 ∷ []

-- Nine zero bits, for every nonce.
pow_hash : Bytes → Bytes → Bytes
pow_hash challenge nonce = 0 ∷ 64 ∷ []

fits : has_leading_zeros (pow_hash five (nonce_at 2)) 9 ≡ true
unfolding pow_hash has_leading_zeros
fits = refl

generate_pow-verify_example :
    (s : PowStamp) × (generate_pow pow_hash 3 five 9 ≡ found s)
    × ((verify_pow pow_hash s five 7 ≡ ok) ↔ ((five ≡ five) × (7 ≤ 9)))
generate_pow-verify_example =
    generate_pow-verify pow_hash 3 2 five five 9 7 (omega arith) (omega arith) fits

abbrev hash : Bytes
hash = 0 ∷ 32 ∷ []

has_leading_zeros-count_example : has_leading_zeros hash 10 ≡ leb 10 (count_leading_zeros hash)
has_leading_zeros-count_example =
    has_leading_zeros-count hash 10 (omega arith, (omega arith, tt)) (omega arith)
