-- ===== src/Base/Order.antt =====
-- The bound `Ord` of the source: a comparison with the laws that the trait documents. Its
-- equality is read as `≡`. Numbers and pairs are ordered here, byte strings in ByteString.
use Prim.Native.Nat.{ℕ, compare, Ordering}
use Prim.Native.Nat.Ordering.{lt, eq, gt}
use mathlib.Core.Path.{◌≡◌}
use mathlib.Core.Bool.{Bool, true, false}
use native.Mathlib.Omega.{arith}

abbrev pub flip : Ordering → Ordering
flip lt = gt
flip eq = eq
flip gt = lt

pub record Ord {ℓ} (K : Type ℓ) : Type ℓ where
  pub cmp : K → K → Ordering
  pub cmp_self : (a : K) → cmp a a ≡ eq
  pub cmp_eq : (a b : K) → cmp a b ≡ eq → a ≡ b
  pub cmp_flip : (a b : K) → cmp b a ≡ flip (cmp a b)
  pub cmp_trans : (a b c : K) → cmp a b ≡ lt → cmp b c ≡ lt → cmp a c ≡ lt

-- `a == b` by the order.
abbrev pub same {ℓ} : {K : Type ℓ} ⦃o : Ord K⦄ → K → K → Bool
same ⦃o⦄ a b = elim (o.cmp a b) [ eq ↦ true | _ ↦ false ]

pub nat_flip : (a b : ℕ) → compare b a ≡ flip (compare a b)
nat_flip a b = ground arith

pub nat_trans : (a b c : ℕ) → compare a b ≡ lt → compare b c ≡ lt → compare a c ≡ lt
nat_trans a b c h k = ground arith

pub nat_self : (a : ℕ) → compare a a ≡ eq
nat_self a = ground arith

pub nat_eq : (a b : ℕ) → compare a b ≡ eq → a ≡ b
nat_eq a b h = ground arith

instance abbrev pub nat_ord : Ord ℕ
nat_ord = record {
  cmp = compare;
  cmp_self = nat_self;
  cmp_eq = nat_eq;
  cmp_flip = nat_flip;
  cmp_trans = nat_trans;
}

-- A derived order compares the fields in turn.
abbrev pub or_else : Ordering → Ordering → Ordering
or_else eq b = b
or_else a _ = a

module _ {ℓ κ} {A : Type ℓ} {B : Type κ} ⦃a : Ord A⦄ ⦃b : Ord B⦄ where
  abbrev pub cmp_pair : A × B → A × B → Ordering
  cmp_pair x y = or_else (a.cmp x.0 y.0) (b.cmp x.1 y.1)

  pub pair_self : (x : A × B) → cmp_pair x x ≡ eq
  pair_self x = ground (arith, a.cmp_self x.0, b.cmp_self x.1)

  pub pair_eq : (x y : A × B) → cmp_pair x y ≡ eq → x ≡ y
  pair_eq x y h = ground (arith, a.cmp_eq x.0 y.0, b.cmp_eq x.1 y.1)

  pub pair_flip : (x y : A × B) → cmp_pair y x ≡ flip (cmp_pair x y)
  pair_flip x y = ground (arith, a.cmp_flip x.0 y.0, b.cmp_flip x.1 y.1)

  pub pair_trans : (x y z : A × B) → cmp_pair x y ≡ lt → cmp_pair y z ≡ lt → cmp_pair x z ≡ lt
  pair_trans x y z h k =
      ground (
        arith,
        a.cmp_eq x.0 y.0,
        a.cmp_eq y.0 z.0,
        a.cmp_trans x.0 y.0 z.0,
        b.cmp_trans x.1 y.1 z.1,
      )

  instance abbrev pub pair_ord : Ord (A × B)
  pair_ord = record {
    cmp = cmp_pair;
    cmp_self = pair_self;
    cmp_eq = pair_eq;
    cmp_flip = pair_flip;
    cmp_trans = pair_trans;
  }

pub descending_eq : (a b : ℕ) → compare b a ≡ eq → a ≡ b
descending_eq a b h = ground arith

-- The order of `Reverse`: the greater number first. It is given by name, not found.
abbrev pub descending : Ord ℕ
descending = record {
  cmp = λ a b. compare b a;
  cmp_self = nat_self;
  cmp_eq = descending_eq;
  cmp_flip = λ a b. nat_flip b a;
  cmp_trans = λ a b c h k. nat_trans c b a k h;
}
