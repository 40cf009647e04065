-- ===== src/Crdt/OrSet/Merge.antt =====
-- `OrSet::merge`, slot by slot, and its laws as equations between sets.
use ephemera_social.Base.{
  ◌≡◌, refl, ◌∙◌, [], ◌∷◌, Ord, nat_ord, pair_ord, Option, none, some, ◌||◌, is_some, same,
  if◌then◌else◌, arith,
}
use ephemera_social.Map.{Map, get}
use ephemera_social.Map.Laws.{get-insert, get-remove}
use ephemera_social.Map.Sorted.{IsSorted, insert-IsSorted, remove-IsSorted, get-Above}
use ephemera_social.Set
use ephemera_social.Set.{
  Set, union, union_comm, union_assoc, union_self, union-IsSorted, is_empty-union,
}
use ephemera_social.Crdt.OrSet.{
  OrSet, UniqueTag, or_default, add_keys, all_values, merge_value, merge_values, merge,
}

-- What the map holds for a value with these tags.
abbrev pub slot {ℓ} : {A : Type ℓ} → Set (UniqueTag A) → Option (Set (UniqueTag A))
slot tags = if Set.is_empty tags then none else some tags

module _ {ℓ κ} {V : Type ℓ} {T : Type κ} ⦃v : Ord V⦄ where
  get-add_keys :
      (q : V) (s : Set V) (m : Map V T)
      → Set.contains q (add_keys s m) ≡ (Set.contains q s || is_some (get q m))
  unfolding add_keys get
  get-add_keys q s [] = ground arith
  get-add_keys q s ((k, t) ∷ m) =
      get-add_keys q (Set.add k s) m ∙ ground (arith, get-insert q k tt s)

  add_keys-IsSorted : (s : Set V) (m : Map V T) → IsSorted s → IsSorted (add_keys s m)
  unfolding add_keys
  add_keys-IsSorted s [] h = h
  add_keys-IsSorted s ((k, t) ∷ m) h = add_keys-IsSorted (Set.add k s) m (insert-IsSorted k tt s h)

module _ {ℓ κ} {A : Type ℓ} {V : Type κ} ⦃a : Ord A⦄ ⦃v : Ord V⦄ where
  get-merge_value :
      (q k : V) (self other : Map V (Set (UniqueTag A)))
      → get q (merge_value k self other) ≡ (
          if same q k
          then slot (union (or_default (get k self)) (or_default (get k other)))
          else get q self)
  unfolding merge_value
  get-merge_value q k self other =
      let merged = union (or_default (get k self)) (or_default (get k other)) in
      ground (arith, get-insert q k merged self, get-remove q k self)

  get-merge_values :
      (q : V) (values : Set V) (self other : Map V (Set (UniqueTag A)))
      → IsSorted values
      → get q (merge_values values self other) ≡ (
          if Set.contains q values
          then slot (union (or_default (get q self)) (or_default (get q other)))
          else get q self)
  unfolding merge_values get
  get-merge_values q [] self other h = refl
  get-merge_values q ((k, u) ∷ values) self other h =
      get-merge_values q values (merge_value k self other) other h.1
      ∙ ground (arith, get-merge_value q k self other, get-Above k values h.0, v.cmp_eq q k)

  -- Each slot after a merge holds the union of the tags of both sides.
  pub get-merge :
      (q : V) (x y : OrSet A V)
      → get q (merge x y).entries
        ≡ slot (union (or_default (get q x.entries)) (or_default (get q y.entries)))
  unfolding merge all_values get union
  get-merge q x y =
      get-merge_values q (all_values x y) x.entries y.entries
        (add_keys-IsSorted _ y.entries (add_keys-IsSorted [] x.entries tt))
      ∙ ground
          (arith, get-add_keys q (add_keys [] x.entries) y.entries, get-add_keys q [] x.entries)

  merge_values-IsSorted :
      (values : Set V) (self other : Map V (Set (UniqueTag A)))
      → IsSorted self
      → IsSorted (merge_values values self other)
  unfolding merge_values merge_value
  merge_values-IsSorted [] self other h = h
  merge_values-IsSorted ((k, u) ∷ values) self other h =
      let merged = union (or_default (get k self)) (or_default (get k other)) in
      merge_values-IsSorted values (merge_value k self other) other
        (ground (arith, insert-IsSorted k merged self h, remove-IsSorted k self h))

  pub merge-IsSorted : (x y : OrSet A V) → IsSorted x.entries → IsSorted (merge x y).entries
  unfolding merge
  merge-IsSorted x y h = merge_values-IsSorted (all_values x y) x.entries y.entries h
