-- ===== src/Map/Sorted.antt =====
-- Ascending keys: every operation keeps them, and two maps with ascending keys that read alike are
-- equal.
use ephemera_social.Base.{
  Option, ◌+◌, ◌≡◌, refl, Ord, same, lt, [], ◌∷◌, none, some, if◌then◌else◌, arith, Bool, keep, All,
  All-keep, Bool-cases, inl, inr,
}
use mathlib.Core.Path.{ap₂}
use ephemera_social.Map.Defs.{contains_key, size, Map, get, insert, remove}

module _ {ℓ κ} {K : Type ℓ} {V : Type κ} ⦃o : Ord K⦄ where
  -- Each key of the map lies above `k`.
  abbrev pub Above : K → Map K V → Type 0
  Above k m = All (λ e. o.cmp k e.0 ≡ lt) m

  abbrev pub IsSorted : Map K V → Type 0
  IsSorted [] = Unit
  IsSorted ((k, v) ∷ m) = Above k m × IsSorted m

  Above-insert :
      (j k : K) (v : V) (m : Map K V) → o.cmp j k ≡ lt → Above j m → Above j (insert k v m)
  unfolding insert
  Above-insert j k v [] h a = (h, tt)
  Above-insert j k v ((i, w) ∷ m) h a = ground (arith, Above-insert j k v m)

  pub Above-lower : (j k : K) (m : Map K V) → o.cmp j k ≡ lt → Above k m → Above j m
  Above-lower j k [] h a = tt
  Above-lower j k ((i, w) ∷ m) h a = (o.cmp_trans j k i h a.0, Above-lower j k m h a.1)

  pub insert-IsSorted : (k : K) (v : V) (m : Map K V) → IsSorted m → IsSorted (insert k v m)
  unfolding insert
  insert-IsSorted k v [] s = (tt, tt)
  insert-IsSorted k v ((i, w) ∷ m) s = ground (
    arith,
    insert-IsSorted k v m,
    o.cmp_eq k i,
    o.cmp_flip k i,
    Above-lower k i m,
    Above-insert i k v m,
  )

  Above-remove : (j k : K) (m : Map K V) → Above j m → Above j (remove k m)
  unfolding remove
  Above-remove j k [] a = tt
  Above-remove j k ((i, w) ∷ m) a = ground (arith, Above-remove j k m)

  pub remove-IsSorted : (k : K) (m : Map K V) → IsSorted m → IsSorted (remove k m)
  unfolding remove
  remove-IsSorted k [] s = tt
  remove-IsSorted k ((i, w) ∷ m) s = ground (arith, remove-IsSorted k m, Above-remove i k m)

  pub retain-IsSorted : (p : K × V → Bool) (m : Map K V) → IsSorted m → IsSorted (keep p m)
  unfolding keep
  retain-IsSorted p [] s = tt
  retain-IsSorted p ((i, w) ∷ m) s = elim (Bool-cases (p (i, w))) [
    | inl e ↦ rw e (All-keep (λ x. o.cmp i x.0 ≡ lt) p m s.0, retain-IsSorted p m s.1)
    | inr e ↦ rw e (retain-IsSorted p m s.1)
  ]

  -- A key below all keys of the map is not in it.
  pub get-Above : (k : K) (m : Map K V) → Above k m → get k m ≡ none
  unfolding get
  get-Above k [] a = refl
  get-Above k ((i, w) ∷ m) a = ground (arith, get-Above k m)

  get_head : (k : K) (v : V) (m : Map K V) → get k ((k, v) ∷ m) ≡ some v
  unfolding get
  get_head k v m = ground (arith, o.cmp_self k)

  -- What stands after the first entry reads as the whole map does at every other key.
  get_tail :
      (k : K) (v : V) (m : Map K V) (q : K)
      → Above k m
      → get q m ≡ (if same q k then none else get q ((k, v) ∷ m))
  unfolding get
  get_tail k v m q a = ground (arith, get-Above k m a, o.cmp_eq q k)

  heads_eq :
      (j k : K) (v w : V) (m n : Map K V)
      → IsSorted ((j, v) ∷ m)
      → IsSorted ((k, w) ∷ n)
      → ((q : K) → get q ((j, v) ∷ m) ≡ get q ((k, w) ∷ n))
      → (j ≡ k) × (v ≡ w)
  unfolding get
  heads_eq j k v w m n s t h = ground (
    arith,
    h j,
    h k,
    o.cmp_self j,
    o.cmp_self k,
    o.cmp_flip j k,
    o.cmp_eq j k,
    get-Above j n,
    get-Above k m,
    Above-lower j k n,
    Above-lower k j m,
  )

  tails_eq :
      (j k : K) (v w : V) (m n : Map K V)
      → IsSorted ((j, v) ∷ m)
      → IsSorted ((k, w) ∷ n)
      → ((q : K) → get q ((j, v) ∷ m) ≡ get q ((k, w) ∷ n))
      → (q : K) → get q m ≡ get q n
  tails_eq j k v w m n s t h q =
      let heads = heads_eq j k v w m n s t h in
      ground (arith, heads, h q, get_tail j v m q s.0, get_tail k w n q t.0)

  -- Maps with ascending keys are equal when every key reads alike.
  pub map_ext : (m n : Map K V) → IsSorted m → IsSorted n → ((q : K) → get q m ≡ get q n) → m ≡ n
  unfolding get
  map_ext [] [] s t h = refl
  map_ext [] ((k, w) ∷ n) s t h = ground (arith, h k, o.cmp_self k)
  map_ext ((j, v) ∷ m) [] s t h = ground (arith, h j, o.cmp_self j)
  map_ext ((j, v) ∷ m) ((k, w) ∷ n) s t h =
      let heads = heads_eq j k v w m n s t h in
      ap₂ (◌∷◌) (ap₂ (λ a b. (a, b)) heads.0 heads.1)
        (map_ext m n s.1 t.1 (λ q. tails_eq j k v w m n s t h q))

  -- Replacing the value of a present key keeps the number of entries; a new key adds one.
  pub size-insert :
      (k : K) (v : V) (m : Map K V)
      → IsSorted m
      → size (insert k v m) ≡ (if contains_key k m then size m else size m + 1)
  unfolding insert get
  size-insert k v [] s = ground arith
  size-insert k v ((j, w) ∷ m) s =
      ground (arith, size-insert k v m s.1, get-Above k m, Above-lower k j m)

  -- What `retain` leaves of a slot.
  abbrev pub keep_slot : (K × V → Bool) → K → Option V → Option V
  keep_slot p k none = none
  keep_slot p k (some v) = if p (k, v) then some v else none

  pub get-keep :
      (p : K × V → Bool) (q : K) (m : Map K V)
      → IsSorted m
      → get q (keep p m) ≡ keep_slot p q (get q m)
  unfolding get keep
  get-keep p q [] s = refl
  get-keep p q ((j, w) ∷ m) s =
      ground (arith, get-keep p q m s.1, get-Above q m, o.cmp_eq q j, get-Above j m s.0)
