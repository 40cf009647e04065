-- ===== src/Set.antt =====
-- `BTreeSet` and `HashSet` of the source: a map to the unit type, as the standard library has it.
use ephemera_social.Base.{
  ◌≡◌, Ord, List, [], ◌∷◌, Option, none, some, Bool, true, false, ◌&&◌, arith, refl, is_some, ◌∙◌,
}
use ephemera_social.Map.{Map, get, insert, keys}
use ephemera_social.Map.Laws.{get-insert}
use ephemera_social.Map.Sorted.{IsSorted, insert-IsSorted, map_ext, get-Above}

abbrev pub Set {ℓ} : Type ℓ → Type ℓ
Set K = Map K (Unit {0})

abbrev pub empty {ℓ} : {K : Type ℓ} → Set K
empty = []

abbrev pub is_empty {ℓ} : {K : Type ℓ} → Set K → Bool
is_empty [] = true
is_empty (x ∷ xs) = false

-- `iter()`
abbrev pub elements {ℓ} : {K : Type ℓ} → Set K → List K
elements s = keys s

-- The present one of two slots.
abbrev pub either : Option (Unit {0}) → Option (Unit {0}) → Option (Unit {0})
either none b = b
either (some a) b = some tt

module _ {ℓ} {K : Type ℓ} ⦃o : Ord K⦄ where
  abbrev pub contains : K → Set K → Bool
  contains k s = is_some (get k s)

  abbrev pub add : K → Set K → Set K
  add k s = insert k tt s

  -- `self.union(other).collect()`
  unfoldable pub union : Set K → Set K → Set K
  union s [] = s
  union s ((k, u) ∷ t) = union (add k s) t

  pub union-IsSorted : (s t : Set K) → IsSorted s → IsSorted (union s t)
  unfolding union
  union-IsSorted s [] h = h
  union-IsSorted s ((k, u) ∷ t) h = union-IsSorted (add k s) t (insert-IsSorted k tt s h)

  pub get-union :
      (q : K) (s t : Set K) → IsSorted t → get q (union s t) ≡ either (get q s) (get q t)
  unfolding union get
  get-union q s [] h = ground arith
  get-union q s ((k, u) ∷ t) h =
      get-union q (add k s) t h.1
      ∙ ground (arith, get-insert q k tt s, get-Above k t h.0, o.cmp_eq q k)

  pub union_comm : (s t : Set K) → IsSorted s → IsSorted t → union s t ≡ union t s
  union_comm s t h k =
      map_ext _ _ (union-IsSorted s t h) (union-IsSorted t s k)
        (λ q. ground (arith, get-union q s t k, get-union q t s h))

  pub union_assoc :
      (r s t : Set K)
      → IsSorted r
      → IsSorted s
      → IsSorted t
      → union (union r s) t ≡ union r (union s t)
  union_assoc r s t h k l =
      map_ext _ _ (union-IsSorted _ t (union-IsSorted r s h)) (union-IsSorted r _ h) (λ q. ground (
        arith,
        get-union q (union r s) t l,
        get-union q r s k,
        get-union q r (union s t) (union-IsSorted s t k),
        get-union q s t l,
      ))

  pub union_self : (s : Set K) → IsSorted s → union s s ≡ s
  union_self s h = map_ext _ _ (union-IsSorted s s h) h (λ q. ground (arith, get-union q s s h))

  pub is_empty-add : (k : K) (s : Set K) → is_empty (add k s) ≡ false
  unfolding insert
  is_empty-add k [] = refl
  is_empty-add k ((j, u) ∷ s) = ground arith

  -- A union is empty exactly if both sides are.
  pub is_empty-union : (s t : Set K) → is_empty (union s t) ≡ (is_empty s && is_empty t)
  unfolding union
  is_empty-union s [] = ground arith
  is_empty-union s ((k, u) ∷ t) = is_empty-union (add k s) t ∙ ground (arith, is_empty-add k s)
