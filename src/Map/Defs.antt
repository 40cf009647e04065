-- ===== src/Map/Defs.antt =====
-- The map's operations, with the names of the standard library's.
use ephemera_social.Base.{
  ℕ, Ord, lt, eq, gt, List, [], ◌∷◌, map, Option, none, some, Bool, length, is_some, keep,
}

abbrev pub Map {ℓ κ} : Type ℓ → Type κ → Type (ℓ ⊔ κ)
Map K V = List (K × V)

abbrev pub empty {ℓ κ} : {K : Type ℓ} {V : Type κ} → Map K V
empty = []

module _ {ℓ κ} {K : Type ℓ} {V : Type κ} where
  -- `len`
  abbrev pub size : Map K V → ℕ
  size m = length m

  abbrev pub keys : Map K V → List K
  keys m = map (λ e. e.0) m

  abbrev pub values : Map K V → List V
  values m = map (λ e. e.1) m

  -- `retain`
  abbrev pub retain : (K × V → Bool) → Map K V → Map K V
  retain p m = keep p m

module _ {ℓ κ} {K : Type ℓ} {V : Type κ} ⦃o : Ord K⦄ where
  unfoldable pub get : K → Map K V → Option V
  get k [] = none
  get k ((j, v) ∷ m) = elim (o.cmp k j) [ eq ↦ some v | _ ↦ get k m ]

  unfoldable pub insert : K → V → Map K V → Map K V
  insert k v [] = (k, v) ∷ []
  insert k v ((j, w) ∷ m) = elim (o.cmp k j) [
    | lt ↦ (k, v) ∷ (j, w) ∷ m
    | eq ↦ (k, v) ∷ m
    | gt ↦ (j, w) ∷ insert k v m
  ]

  unfoldable pub remove : K → Map K V → Map K V
  remove k [] = []
  remove k ((j, w) ∷ m) = elim (o.cmp k j) [ eq ↦ remove k m | _ ↦ (j, w) ∷ remove k m ]

  abbrev pub contains_key : K → Map K V → Bool
  contains_key k m = is_some (get k m)

-- `get(k).copied().unwrap_or(0)`, and the value that `entry(k).or_insert(0)` gives.
abbrev pub or_zero : Option ℕ → ℕ
or_zero none = 0
or_zero (some n) = n

abbrev pub get_or_zero {ℓ} : {K : Type ℓ} ⦃o : Ord K⦄ → K → Map K ℕ → ℕ
get_or_zero k m = or_zero (get k m)
