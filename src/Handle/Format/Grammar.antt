-- ===== src/Handle/Format/Grammar.antt =====
-- The names that are accepted, described without the order of the checks: runs of letters and digits
-- joined by single underscores, the first beginning with a letter.
use ephemera_social.Base.{
  ℕ, suc, ◌≤◌, ◌≡◌, ◌↔◌, ◌⊎◌, refl, [], ◌∷◌, none, some, Bool, true, false, not, ◌&&◌, ◌||◌, ◌==◌,
  length, if◌then◌else◌, text_len, utf8, is_ascii_lowercase, is_ascii_digit, list_ord, nat_ord,
  codes, starts_with, ends_with, contains_text, ok, arith,
}
use ephemera_social.Handle.Format.{
  Name, first_invalid, is_handle_char, is_reserved, structural_rules, validate_handle_format,
}

-- What may follow: a name must not stop, or go on with an underscore, after an underscore.
unfoldable pub joins : (after_underscore : Bool) → Name → Bool
joins after_underscore [] = not after_underscore
joins after_underscore (c ∷ cs) =
    if is_ascii_lowercase c || is_ascii_digit c
    then joins false cs
    else if c == 95 && not after_underscore
    then joins true cs
    else false

unfoldable pub matches_grammar : Name → Bool
unfolding joins
matches_grammar [] = false
matches_grammar (c ∷ cs) = is_ascii_lowercase c && joins false cs

all_valid : ℕ → Name → Bool
all_valid pos cs = elim (first_invalid pos cs) [ none ↦ true | some _ ↦ false ]

rules : Name → Bool
rules cs = not (ends_with 95 cs) && not (contains_text (codes "__") cs)

is_empty : Name → Bool
is_empty [] = true
is_empty (c ∷ cs) = false

contains-cons :
    (c : ℕ) (cs : Name)
    → contains_text (codes "__") (c ∷ cs)
      ≡ ((c == 95 && starts_with (codes "_") cs) || contains_text (codes "__") cs)
unfolding contains_text starts_with
contains-cons c [] = ground arith
contains-cons c (d ∷ cs) = ground arith

ends-cons :
    (c : ℕ) (cs : Name) → ends_with 95 (c ∷ cs) ≡ (if is_empty cs then c == 95 else ends_with 95 cs)
unfolding ends_with is_empty
ends-cons c [] = refl
ends-cons c (d ∷ cs) = refl

starts-cons : (c : ℕ) (cs : Name) → starts_with (codes "_") (c ∷ cs) ≡ (c == 95)
unfolding starts_with
starts-cons c cs = ground arith

valid-cons :
    (pos c : ℕ) (cs : Name) → all_valid pos (c ∷ cs) ≡ (is_handle_char c && all_valid (suc pos) cs)
unfolding all_valid first_invalid
valid-cons pos c cs = ground arith

-- The characters of the three kinds.
char-kinds :
    (c : ℕ)
    → ((is_ascii_lowercase c || is_ascii_digit c) ≡ true)
        × ((c == 95) ≡ false)
        × (is_handle_char c ≡ true)
      ⊎ ((is_ascii_lowercase c || is_ascii_digit c) ≡ false)
        × ((c == 95) ≡ true)
        × (is_handle_char c ≡ true)
      ⊎ ((is_ascii_lowercase c || is_ascii_digit c) ≡ false)
        × ((c == 95) ≡ false)
        × (is_handle_char c ≡ false)
char-kinds c = ground arith

rules-cons :
    (c : ℕ) (cs : Name)
    → rules (c ∷ cs) ≡ (
        not (if is_empty cs then c == 95 else ends_with 95 cs)
        && not ((c == 95 && starts_with (codes "_") cs) || contains_text (codes "__") cs))
unfolding rules
rules-cons c cs = ground (arith, ends-cons c cs, contains-cons c cs)

joins-cons :
    (after : Bool) (c : ℕ) (cs : Name)
    → joins after (c ∷ cs) ≡ (
        if is_ascii_lowercase c || is_ascii_digit c
        then joins false cs
        else if c == 95 && not after
        then joins true cs
        else false)
unfolding joins
joins-cons after c cs = refl

joins-nil : (after : Bool) → joins after [] ≡ not after
unfolding joins
joins-nil after = refl

empty-rules :
    (pos : ℕ) (cs : Name)
    → is_empty cs ≡ true
    → (all_valid pos cs ≡ true)
      × (ends_with 95 cs ≡ false)
      × (contains_text (codes "__") cs ≡ false)
unfolding is_empty all_valid first_invalid ends_with contains_text starts_with
empty-rules pos [] h = ground arith
empty-rules pos (c ∷ cs) h = absurd (ground arith)

rules-unfold :
    (cs : Name) → rules cs ≡ (not (ends_with 95 cs) && not (contains_text (codes "__") cs))
unfolding rules
rules-unfold cs = refl

joins-rules :
    (pos : ℕ) (cs : Name)
    → (joins false cs ≡ (all_valid pos cs && rules cs))
      × (joins true cs ≡ (
          not (is_empty cs) && not (starts_with (codes "_") cs) && (all_valid pos cs && rules cs)))
unfolding is_empty
joins-rules pos [] =
    ground (arith, empty-rules pos [] refl, rules-unfold [], joins-nil false, joins-nil true)
joins-rules pos (c ∷ cs) = ground (
  arith,
  joins-rules (suc pos) cs,
  joins-cons false c cs,
  joins-cons true c cs,
  starts-cons c cs,
  rules-cons c cs,
  rules-unfold cs,
  empty-rules (suc pos) cs,
  valid-cons pos c cs,
  char-kinds c,
)

valid-ascii :
    (pos : ℕ) (cs : Name) → all_valid pos cs ≡ true → (text_len cs ≡ length cs) × (utf8 cs ≡ cs)
unfolding all_valid first_invalid text_len utf8
valid-ascii pos [] h = (refl, refl)
valid-ascii pos (c ∷ cs) h = ground (arith, valid-ascii (suc pos) cs)

matches-valid : (name : Name) → matches_grammar name ≡ true → all_valid 0 name ≡ true
unfolding matches_grammar
matches-valid [] h = absurd (ground arith)
matches-valid (c ∷ cs) h = ground (arith, joins-rules 1 cs, valid-cons 0 c cs, char-kinds c)

structural-matches :
    (name : Name)
    → all_valid 0 name ≡ true
    → 3 ≤ text_len name
    → (structural_rules name ≡ ok tt) ↔ ((matches_grammar name ≡ true) × (is_reserved name ≡ false))
unfolding matches_grammar text_len structural_rules
structural-matches [] h l = absurd (omega arith)
structural-matches (c ∷ cs) h l =
    let v = valid-ascii 0 (c ∷ cs) h in
    ground (
      arith,
      h,
      v.1,
      joins-rules 1 cs,
      valid-cons 0 c cs,
      char-kinds c,
      starts-cons c cs,
      contains-cons c cs,
      ends-cons c cs,
      rules-unfold cs,
      empty-rules 1 cs,
    )

validate-cases :
    (name : Name)
    → (validate_handle_format name ≡ ok tt) ↔ (
        (3 ≤ text_len name)
        × (text_len name ≤ 20)
        × (all_valid 0 name ≡ true)
        × (structural_rules name ≡ ok tt))
unfolding validate_handle_format all_valid
validate-cases name = ground arith

-- `validate_handle_format` accepts exactly the names of 3 to 20 characters that are runs of lower-case
-- letters and digits, joined by single underscores, with a letter in front, and are not reserved.
pub validate_handle_format-grammar :
    (name : Name)
    → (validate_handle_format name ≡ ok tt) ↔ (
        (3 ≤ length name)
        × (length name ≤ 20)
        × (matches_grammar name ≡ true)
        × (is_reserved name ≡ false))
validate_handle_format-grammar name =
    ground
      (arith, validate-cases name, valid-ascii 0 name, matches-valid name, structural-matches name)
