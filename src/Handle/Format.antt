-- ===== src/Handle/Format.antt =====
-- crates/ephemera-social/src/handle_validation.rs: which names a handle can have, what they cost, and
-- what is signed. A name is a list of code points.
pub mod Grammar
use ephemera_social.Base.{
  ℕ, zero, suc, ◌+◌, ◌*◌, List, [], ◌∷◌, ◌++◌, Option, none, some, Bool, true, false, not, ◌&&◌,
  ltb, leb, ◌==◌, if◌then◌else◌, same, list_ord, nat_ord, any, Bytes, codes, text_len, utf8,
  is_ascii_lowercase, is_ascii_digit, starts_with, ends_with, contains_text, be_bytes, get_elem?,
  Result, ok, err,
}
use ephemera_social.Pow.Argon
use ephemera_social.Pow.Argon.{PowStamp, Verified, verify_pow}
use ephemera_social.Signing.{Signing}

abbrev pub Name : Type 0
Name = List ℕ

abbrev pub min_handle_len : ℕ
min_handle_len = 3

abbrev pub max_handle_len : ℕ
max_handle_len = 20

abbrev pub handle_ttl_secs : ℕ
handle_ttl_secs = 90 * 24 * 60 * 60

abbrev pub handle_release_cooldown_secs : ℕ
handle_release_cooldown_secs = 24 * 60 * 60

abbrev pub handle_registration_cooldown_secs : ℕ
handle_registration_cooldown_secs = 24 * 60 * 60

abbrev pub pow_domain : Bytes
pow_domain = codes "ephemera-handle-pow-v1" ++ 0 ∷ []

abbrev pub sig_domain : Bytes
sig_domain = codes "ephemera-handle-sig-v1" ++ 0 ∷ []

unfoldable pub reserved_handles : List Name
reserved_handles =
    codes "admin"
    ∷ codes "administrator"
    ∷ codes "ephemera"
    ∷ codes "help"
    ∷ codes "info"
    ∷ codes "mod"
    ∷ codes "moderator"
    ∷ codes "official"
    ∷ codes "root"
    ∷ codes "staff"
    ∷ codes "support"
    ∷ codes "system"
    ∷ codes "team"
    ∷ codes "trust"
    ∷ codes "security"
    ∷ []

pub data PowDifficulty : Type 0 where
  high medium low renewal : PowDifficulty

abbrev pub bits : PowDifficulty → ℕ
bits high = 11
bits medium = 9
bits low = 7
bits renewal = 5

pub data HandleValidationError : Type 0 where
  too_short too_long : (len : ℕ) → HandleValidationError
  invalid_character : (ch pos : ℕ) → HandleValidationError
  starts_with_underscore ends_with_underscore consecutive_underscores : HandleValidationError
  starts_with_digit : HandleValidationError
  reserved : Name → HandleValidationError

-- The test of a character in the loop, and the loop: the first bad character with its position.
abbrev pub is_handle_char : ℕ → Bool
is_handle_char ch = not (not (is_ascii_lowercase ch) && not (is_ascii_digit ch) && not (ch == 95))

unfoldable pub first_invalid : ℕ → Name → Option (ℕ × ℕ)
first_invalid pos [] = none
first_invalid pos (ch ∷ cs) =
    if is_handle_char ch then first_invalid (suc pos) cs else some (ch, pos)

-- `name.as_bytes()[0].is_ascii_digit()`; the index exists, as the name is long enough.
abbrev pub digit_at_front : Option ℕ → Bool
digit_at_front none = false
digit_at_front (some b) = is_ascii_digit b

abbrev pub is_reserved : Name → Bool
is_reserved name = any (same name) reserved_handles

unfoldable pub structural_rules : Name → Result {0, 0} Unit HandleValidationError
structural_rules name =
    if starts_with (codes "_") name
    then err starts_with_underscore
    else if ends_with 95 name
    then err ends_with_underscore
    else if contains_text (codes "__") name
    then err consecutive_underscores
    else if digit_at_front (get_elem? (utf8 name) 0)
    then err starts_with_digit
    else if is_reserved name
    then err (reserved name)
    else ok tt

abbrev pub check_characters : Name → Option (ℕ × ℕ) → Result {0, 0} Unit HandleValidationError
check_characters name none = structural_rules name
check_characters name (some (ch, pos)) = err (invalid_character ch pos)

unfoldable pub validate_handle_format : Name → Result {0, 0} Unit HandleValidationError
unfolding first_invalid text_len
validate_handle_format name =
    if ltb (text_len name) min_handle_len
    then err (too_short (text_len name))
    else if ltb max_handle_len (text_len name)
    then err (too_long (text_len name))
    else check_characters name (first_invalid 0 name)

unfoldable pub calculate_pow_difficulty : Name → PowDifficulty
unfolding text_len
calculate_pow_difficulty name =
    if leb (text_len name) 5 then high else if leb (text_len name) 10 then medium else low

-- `name_len` is the length as a `u16`: `be_bytes 2` writes its two lowest bytes.
unfoldable pub build_pow_challenge : Name → Bytes → ℕ → Bytes
unfolding utf8 be_bytes text_len
build_pow_challenge name owner registered_at =
    pow_domain ++ (be_bytes 2 (text_len name) ++ (utf8 name ++ (owner ++ be_bytes 8 registered_at)))

unfoldable pub build_signature_message : Name → Bytes → ℕ → Bytes
unfolding utf8 be_bytes text_len
build_signature_message name owner registered_at =
    sig_domain ++ (be_bytes 2 (text_len name) ++ (utf8 name ++ (owner ++ be_bytes 8 registered_at)))

unfoldable pub verify_handle_pow :
    (pow_hash : Bytes → Bytes → Bytes) → Name → Bytes → ℕ → PowStamp → PowDifficulty → Verified
unfolding verify_pow build_pow_challenge
verify_handle_pow pow_hash name owner registered_at pow_proof required_difficulty =
    verify_pow pow_hash pow_proof (build_pow_challenge name owner registered_at)
      (bits required_difficulty)

unfoldable pub verify_handle_signature : Signing → Name → Bytes → ℕ → Bytes → Bool
unfolding build_signature_message
verify_handle_signature ed25519 name owner registered_at signature =
    ed25519.verify owner (build_signature_message name owner registered_at) signature
