-- ===== src/Base/ByteString.antt =====
-- Byte strings: lists of numbers below 256, in the order of slices and arrays (lexicographic), with
-- the bit operations on bytes that the source uses.
use Prim.Native.Nat.{ℕ, zero, suc, ◌+◌, ◌*◌, ◌≤◌, ◌<◌, bit_xor, Ordering}
use Prim.Native.Nat.Ordering.{lt, eq, gt}
use mathlib.Core.Path.{◌≡◌, refl, ap}
use mathlib.Core.Logic.{◌≢◌, ◌⊎◌}
use mathlib.Core.Bool.{Bool, true, false}
use mathlib.Core.List.{List, [], ◌∷◌}
use mathlib.Core.Option.{Option, none, some}
use native.Mathlib.Omega.{arith}
use ephemera_social.Base.Tests.{ltb, ◌==◌, if◌then◌else◌}
use ephemera_social.Base.Lists.{length, All}
use ephemera_social.Base.Order.{Ord, flip, or_else, same, nat_ord}

abbrev pub Bytes : Type 0
Bytes = List ℕ

abbrev pub IsBytes : Bytes → Type 0
IsBytes bs = All (λ b. b < 256) bs

module _ {ℓ} {A : Type ℓ} ⦃o : Ord A⦄ where
  abbrev pub cmp_list : List A → List A → Ordering
  cmp_list [] [] = eq
  cmp_list [] (y ∷ ys) = lt
  cmp_list (x ∷ xs) [] = gt
  cmp_list (x ∷ xs) (y ∷ ys) = or_else (o.cmp x y) (cmp_list xs ys)

  pub list_self : (xs : List A) → cmp_list xs xs ≡ eq
  list_self [] = refl
  list_self (x ∷ xs) = ground (arith, o.cmp_self x, list_self xs)

  pub list_eq : (xs ys : List A) → cmp_list xs ys ≡ eq → xs ≡ ys
  list_eq [] [] h = refl
  list_eq [] (y ∷ ys) h = absurd (ground arith)
  list_eq (x ∷ xs) [] h = absurd (ground arith)
  list_eq (x ∷ xs) (y ∷ ys) h = ground (arith, o.cmp_eq x y, list_eq xs ys)

  pub list_flip : (xs ys : List A) → cmp_list ys xs ≡ flip (cmp_list xs ys)
  list_flip [] [] = refl
  list_flip [] (y ∷ ys) = refl
  list_flip (x ∷ xs) [] = refl
  list_flip (x ∷ xs) (y ∷ ys) = ground (arith, o.cmp_flip x y, list_flip xs ys)

  pub list_trans :
      (xs ys zs : List A) → cmp_list xs ys ≡ lt → cmp_list ys zs ≡ lt → cmp_list xs zs ≡ lt
  list_trans [] (y ∷ ys) (z ∷ zs) h k = refl
  list_trans (x ∷ xs) (y ∷ ys) (z ∷ zs) h k =
      ground (arith, o.cmp_eq x y, o.cmp_eq y z, o.cmp_trans x y z, list_trans xs ys zs)
  list_trans xs ys zs h k = ground arith

  instance abbrev pub list_ord : Ord (List A)
  list_ord = record {
    cmp = cmp_list;
    cmp_self = list_self;
    cmp_eq = list_eq;
    cmp_flip = list_flip;
    cmp_trans = list_trans;
  }

-- Whether two byte strings are the same.
pub same_cases : (a b : Bytes) → (same a b ≡ true) × (a ≡ b) ⊎ (same a b ≡ false) × (a ≢ b)
same_cases a b = ground (arith, list_eq {A = ℕ} a b, list_self {A = ℕ} a)

pub same_self : (a : Bytes) → same a a ≡ true
same_self a = ground (arith, list_self {A = ℕ} a)

-- `^` byte by byte, over arrays of one length.
unfoldable pub xor_bytes : Bytes → Bytes → Bytes
xor_bytes (x ∷ xs) (y ∷ ys) = bit_xor x y ∷ xor_bytes xs ys
xor_bytes _ _ = []

-- `u8::leading_zeros`
unfoldable pub leading_zeros : ℕ → ℕ
leading_zeros b =
    if ltb b 1
    then 8
    else if ltb b 2
    then 7
    else if ltb b 4
    then 6
    else if ltb b 8
    then 5
    else if ltb b 16
    then 4
    else if ltb b 32
    then 3
    else if ltb b 64
    then 2
    else if ltb b 128
    then 1
    else 0

-- Only equal bytes have the exclusive or zero. The test tries `b` and every byte below it.
differs_up_to : ℕ → ℕ → Bool
differs_up_to a zero = if bit_xor a 0 == 0 then a == 0 else true
differs_up_to a (suc b) =
    if bit_xor a (suc b) == 0
    then (if a == suc b then differs_up_to a b else false)
    else differs_up_to a b

rows_up_to : ℕ → Bool
rows_up_to zero = differs_up_to 0 255
rows_up_to (suc a) = if differs_up_to (suc a) 255 then rows_up_to a else false

every_row : rows_up_to 255 ≡ true
unfolding rows_up_to differs_up_to
every_row = refl

row_holds : (top a : ℕ) → rows_up_to top ≡ true → a ≤ top → differs_up_to a 255 ≡ true
unfolding rows_up_to
row_holds zero a t l = ground arith
row_holds (suc top) a t l = ground (arith, row_holds top a)

cell_holds : (a top b : ℕ) → differs_up_to a top ≡ true → b ≤ top → bit_xor a b ≡ 0 → a ≡ b
unfolding differs_up_to
cell_holds a zero b t l e = ground arith
cell_holds a (suc top) b t l e = ground (arith, cell_holds a top b)

xor_zero : (a b : ℕ) → a < 256 → b < 256 → bit_xor a b ≡ 0 → a ≡ b
xor_zero a b h k e = cell_holds a 255 b (row_holds 255 a every_row (omega arith)) (omega arith) e

-- The index of the most significant bit that is set, counted from the front; the loop's `byte_idx`
-- is the first argument.
unfoldable pub first_bit : ℕ → Bytes → Option ℕ
unfolding leading_zeros
first_bit i [] = none
first_bit i (b ∷ bs) = if b == 0 then first_bit (i + 1) bs else some (i * 8 + leading_zeros b)

pub first_bit_bound :
    (i : ℕ) (bs : Bytes) {n : ℕ} → first_bit i bs ≡ some n → n < (i + length bs) * 8
unfolding first_bit
first_bit_bound i [] h = absurd (ground arith)
first_bit_bound i (b ∷ bs) {n} h = ground (arith, first_bit_bound (i + 1) bs {n = n})

pub first_bit-xor :
    (i : ℕ) (xs ys : Bytes)
    → IsBytes xs
    → IsBytes ys
    → length xs ≡ length ys
    → first_bit i (xor_bytes xs ys) ≡ none
    → xs ≡ ys
unfolding first_bit xor_bytes
first_bit-xor i [] [] h k l e = refl
first_bit-xor i [] (y ∷ ys) h k l e = absurd (omega arith)
first_bit-xor i (x ∷ xs) [] h k l e = absurd (omega arith)
first_bit-xor i (x ∷ xs) (y ∷ ys) h k l e =
    ground (arith, xor_zero x y h.0 k.0, first_bit-xor (i + 1) xs ys h.1 k.1)

pub length-xor_bytes :
    (xs ys : Bytes) → length xs ≡ length ys → length (xor_bytes xs ys) ≡ length xs
unfolding xor_bytes
length-xor_bytes [] [] h = refl
length-xor_bytes [] (y ∷ ys) h = absurd (omega arith)
length-xor_bytes (x ∷ xs) [] h = absurd (omega arith)
length-xor_bytes (x ∷ xs) (y ∷ ys) h = ap suc (length-xor_bytes xs ys (omega arith))
