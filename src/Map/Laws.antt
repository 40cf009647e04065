-- ===== src/Map/Laws.antt =====
-- What a reader of the map sees after each operation, in whatever order the entries stand.
use ephemera_social.Base.{
  ◌≡◌, refl, Ord, same, lt, eq, gt, [], ◌∷◌, none, some, if◌then◌else◌, arith, ◌≤◌, ◌+◌, All,
  Ordering,
}
use mathlib.Core.Path.{subst}
use ephemera_social.Map.Defs.{Map, get, insert, remove, size}

module _ {ℓ κ} {K : Type ℓ} {V : Type κ} ⦃o : Ord K⦄ where
  -- Reading any key after an insertion.
  pub get-insert :
      (q k : K) (v : V) (m : Map K V)
      → get q (insert k v m) ≡ (if same q k then some v else get q m)
  unfolding get insert
  get-insert q k v [] = ground arith
  get-insert q k v ((j, w) ∷ m) = ground (
    arith,
    get-insert q k v m,
    o.cmp_eq k j,
    o.cmp_eq q k,
    o.cmp_eq q j,
    o.cmp_self q,
    o.cmp_flip k j,
  )

  -- Reading any key after a removal.
  pub get-remove :
      (q k : K) (m : Map K V) → get q (remove k m) ≡ (if same q k then none else get q m)
  unfolding get remove
  get-remove q k [] = ground arith
  get-remove q k ((j, w) ∷ m) = ground (
    arith,
    get-remove q k m,
    o.cmp_eq k j,
    o.cmp_eq q k,
    o.cmp_eq q j,
    o.cmp_self q,
    o.cmp_flip k q,
  )

  pub size-insert-le : (k : K) (v : V) (m : Map K V) → size (insert k v m) ≤ size m + 1
  unfolding insert
  size-insert-le k v [] = ground arith
  size-insert-le k v ((j, w) ∷ m) = ground (arith, size-insert-le k v m)

  pub size-remove-le : (k : K) (m : Map K V) → size (remove k m) ≤ size m
  unfolding remove
  size-remove-le k [] = ground arith
  size-remove-le k ((j, w) ∷ m) = ground (arith, size-remove-le k m)

  -- Every value of the map has the property.
  abbrev pub Values {μ} : (V → Type μ) → Map K V → Type μ
  Values P m = All (λ e. P e.1) m

  pub Values-get {μ} :
      (P : V → Type μ) (k : K) (m : Map K V) {v : V} → Values P m → get k m ≡ some v → P v
  unfolding get
  Values-get P k [] a h = absurd (cc)
  Values-get P k ((j, w) ∷ m) {v} a h = go (o.cmp k j) refl (Values-get P k m a.1)
    where
      go : (c : Ordering) → o.cmp k j ≡ c → (get k m ≡ some v → P v) → P v
      go lt e later = later (ground arith)
      go eq e later = subst P (ground arith) a.0
      go gt e later = later (ground arith)

  pub Values-insert {μ} :
      (P : V → Type μ) (k : K) (v : V) (m : Map K V) → P v → Values P m → Values P (insert k v m)
  unfolding insert
  Values-insert P k v [] p a = (p, a)
  Values-insert P k v ((j, w) ∷ m) p a = ground (arith, Values-insert P k v m)

  pub Values-remove {μ} :
      (P : V → Type μ) (k : K) (m : Map K V) → Values P m → Values P (remove k m)
  unfolding remove
  Values-remove P k [] a = a
  Values-remove P k ((j, w) ∷ m) a = ground (arith, Values-remove P k m)

  pub All-insert {μ} :
      (P : K × V → Type μ) (k : K) (v : V) (m : Map K V) → P (k, v) → All P m → All P (insert k v m)
  unfolding insert
  All-insert P k v [] p a = (p, a)
  All-insert P k v ((j, w) ∷ m) p a = ground (arith, All-insert P k v m)

  -- An entry that can be read has what every entry has.
  pub All-get {μ} :
      (P : K × V → Type μ) (k : K) (m : Map K V) {v : V} → All P m → get k m ≡ some v → P (k, v)
  unfolding get
  All-get P k [] a h = absurd (cc)
  All-get P k ((j, w) ∷ m) {v} a h = go (o.cmp k j) refl (All-get P k m a.1)
    where
      go : (c : Ordering) → o.cmp k j ≡ c → (get k m ≡ some v → P (k, v)) → P (k, v)
      go lt e later = later (ground arith)
      go eq e later = subst P (ground (arith, o.cmp_eq k j)) a.0
      go gt e later = later (ground arith)
