-- ===== src/Base/Sort.antt =====
-- `sort_by_key`, the stable sort, as an insertion sort by a key. What the callers rely on is its
-- specification: a permutation in ascending order of the keys.
use mathlib.Core.List.{List, [], ◌∷◌, Perm}
use mathlib.Core.List.Perm
use mathlib.Core.Path.{◌≡◌, refl}
use mathlib.Core.Bool.{Bool, true, false}
use mathlib.Core.Logic.{inl, inr}
use Prim.Native.Nat.{◌+◌}
use Prim.Native.Nat.Ordering.{gt}
use native.Mathlib.Omega.{arith}
use ephemera_social.Base.Tests.{if◌then◌else◌, Bool-cases}
use ephemera_social.Base.Lists.{All, All-imp, any, length}
use ephemera_social.Base.Order.{Ord}

module _ {ℓ κ} {A : Type ℓ} {K : Type κ} ⦃o : Ord K⦄ (key : A → K) where
  -- `a`'s key is not above `b`'s.
  abbrev pub not_above : A → A → Bool
  not_above a b = elim (o.cmp (key a) (key b)) [ gt ↦ false | _ ↦ true ]

  -- Before the first element whose key is not below; so earlier elements stay ahead of equal ones.
  unfoldable pub insert_by : A → List A → List A
  insert_by x [] = x ∷ []
  insert_by x (y ∷ ys) = if not_above x y then x ∷ y ∷ ys else y ∷ insert_by x ys

  unfoldable pub sort_by_key : List A → List A
  unfolding insert_by
  sort_by_key [] = []
  sort_by_key (x ∷ xs) = insert_by x (sort_by_key xs)

  -- Each element's key is not above those of the elements behind it.
  abbrev pub Ascends : List A → Type 0
  Ascends [] = Unit
  Ascends (x ∷ xs) = All (λ y. not_above x y ≡ true) xs × Ascends xs

  not_above_trans : (a b c : A) → not_above a b ≡ true → not_above b c ≡ true → not_above a c ≡ true
  not_above_trans a b c h k = ground (
    arith,
    o.cmp_trans (key a) (key b) (key c),
    o.cmp_eq (key a) (key b),
    o.cmp_eq (key b) (key c),
  )

  not_above_of_above : (a b : A) → not_above a b ≡ false → not_above b a ≡ true
  not_above_of_above a b h = ground (arith, o.cmp_flip (key a) (key b))

  insert_by-All :
      (x y : A) (ys : List A)
      → not_above y x ≡ true
      → All (λ z. not_above y z ≡ true) ys
      → All (λ z. not_above y z ≡ true) (insert_by x ys)
  unfolding insert_by
  insert_by-All x y [] h a = (h, tt)
  insert_by-All x y (z ∷ zs) h a = elim (Bool-cases (not_above x z)) [
    | inl e ↦ rw e (h, a)
    | inr e ↦ rw e (a.0, insert_by-All x y zs h a.1)
  ]

  insert_by-Ascends : (x : A) (ys : List A) → Ascends ys → Ascends (insert_by x ys)
  unfolding insert_by
  insert_by-Ascends x [] s = (tt, tt)
  insert_by-Ascends x (y ∷ ys) s = elim (Bool-cases (not_above x y)) [
    | inl e ↦ rw e ((e, All-imp (λ z h. not_above_trans x y z e h) ys s.0), s)
    | inr e ↦ rw e (insert_by-All x y ys (not_above_of_above x y e) s.0, insert_by-Ascends x ys s.1)
  ]

  pub sort_by_key-Ascends : (xs : List A) → Ascends (sort_by_key xs)
  unfolding sort_by_key
  sort_by_key-Ascends [] = tt
  sort_by_key-Ascends (x ∷ xs) = insert_by-Ascends x (sort_by_key xs) (sort_by_key-Ascends xs)

  insert_by-perm : (x : A) (ys : List A) → Perm (insert_by x ys) (x ∷ ys)
  unfolding insert_by
  insert_by-perm x [] = Perm.refl (x ∷ [])
  insert_by-perm x (y ∷ ys) = elim (Bool-cases (not_above x y)) [
    | inl e ↦ rw e (Perm.refl (x ∷ y ∷ ys))
    | inr e ↦ rw e (Perm.trans (Perm.cons y (insert_by-perm x ys)) (Perm.swap x y ys))
  ]

  pub sort_by_key-perm : (xs : List A) → Perm (sort_by_key xs) xs
  unfolding sort_by_key
  sort_by_key-perm [] = Perm.refl []
  sort_by_key-perm (x ∷ xs) =
      Perm.trans (insert_by-perm x (sort_by_key xs)) (Perm.cons x (sort_by_key-perm xs))

  pub any-insert_by : (p : A → Bool) (x : A) (ys : List A) → any p (insert_by x ys) ≡ any p (x ∷ ys)
  unfolding any insert_by
  any-insert_by p x [] = refl
  any-insert_by p x (y ∷ ys) = ground (arith, any-insert_by p x ys)

  pub any-sort_by_key : (p : A → Bool) (xs : List A) → any p (sort_by_key xs) ≡ any p xs
  unfolding any sort_by_key
  any-sort_by_key p [] = refl
  any-sort_by_key p (x ∷ xs) =
      ground (arith, any-insert_by p x (sort_by_key xs), any-sort_by_key p xs)

  length-insert_by : (x : A) (ys : List A) → length (insert_by x ys) ≡ length ys + 1
  unfolding insert_by
  length-insert_by x [] = omega arith
  length-insert_by x (y ∷ ys) = ground (arith, length-insert_by x ys)

  pub length-sort_by_key : (xs : List A) → length (sort_by_key xs) ≡ length xs
  unfolding sort_by_key
  length-sort_by_key [] = refl
  length-sort_by_key (x ∷ xs) =
      omega (arith, length-insert_by x (sort_by_key xs), length-sort_by_key xs)
