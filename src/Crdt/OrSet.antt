-- ===== src/Crdt/OrSet.antt =====
-- crates/ephemera-crdt/src/orset.rs: the observed-remove set. A value is in the set while it has
-- a live tag; every addition makes a tag of its own.
pub mod Tags
pub mod Merge
pub mod Laws
use ephemera_social.Base.{
  ℕ, ◌+◌, List, [], ◌∷◌, ◌++◌, Ord, nat_ord, pair_ord, Option, none, some, Bool, true, false, not,
  is_some, wrapping_add, length, keep, map, if◌then◌else◌, ◌==◌,
}
use ephemera_social.Map
use ephemera_social.Map.{Map, get, get_or_zero, insert, remove, keys}
use ephemera_social.Set
use ephemera_social.Set.{Set, union}
use ephemera_social.Crdt.GCounter.{merge_counts}

-- `UniqueTag`: the actor and its sequence number, ordered field by field.
abbrev pub UniqueTag {ℓ} : Type ℓ → Type ℓ
UniqueTag A = A × ℕ

pub record OrSet {ℓ κ} (A : Type ℓ) (V : Type κ) : Type (ℓ ⊔ κ) where
  pub entries : Map V (Set (UniqueTag A))
  pub counters : Map A ℕ

-- `unwrap_or(&empty)` and `or_default()`.
abbrev pub or_default {ℓ} : {A : Type ℓ} → Option (Set (UniqueTag A)) → Set (UniqueTag A)
or_default none = []
or_default (some tags) = tags

-- `is_some_and(|tags| !tags.is_empty())`
abbrev pub nonempty {ℓ} : {A : Type ℓ} → Option (Set (UniqueTag A)) → Bool
nonempty none = false
nonempty (some tags) = not (Set.is_empty tags)

-- The keys of a map, added to a set.
unfoldable pub add_keys {ℓ κ} : {V : Type ℓ} {T : Type κ} ⦃v : Ord V⦄ → Set V → Map V T → Set V
unfolding insert
add_keys s [] = s
add_keys s ((k, _) ∷ m) = add_keys (Set.add k s) m

module _ {ℓ κ} {A : Type ℓ} {V : Type κ} where
  unfoldable pub new : OrSet A V
  new = record { entries = Map.empty; counters = Map.empty }

  -- `entries.iter().filter(|(_, tags)| !tags.is_empty())`
  abbrev live : OrSet A V → Map V (Set (UniqueTag A))
  live s = keep (λ e. not (Set.is_empty e.1)) s.entries

  unfoldable pub elements : OrSet A V → List V
  unfolding keep
  elements s = keys (live s)

  unfoldable pub len : OrSet A V → ℕ
  unfolding keep
  len s = length (live s)

  unfoldable pub is_empty : OrSet A V → Bool
  unfolding len
  is_empty s = len s == 0

module _ {ℓ κ} {A : Type ℓ} {V : Type κ} ⦃a : Ord A⦄ ⦃v : Ord V⦄ where
  -- `add`. The counter's `+= 1` is the addition of a release build.
  unfoldable pub add : A → V → OrSet A V → OrSet A V × UniqueTag A
  unfolding get insert
  add actor value s =
      let seq = wrapping_add (get_or_zero actor s.counters) 1 in
      (
        record {
          entries =
              insert value (Set.add (actor, seq) (or_default (get value s.entries))) s.entries;
          counters = insert actor seq s.counters;
        },
        (actor, seq),
      )

  unfoldable pub discard : V → OrSet A V → OrSet A V × Bool
  unfolding get remove
  discard value s = (record s { entries = remove value s.entries }, is_some (get value s.entries))

  unfoldable pub contains : V → OrSet A V → Bool
  unfolding get
  contains value s = nonempty (get value s.entries)

  -- The keys of both sides, each once.
  unfoldable pub all_values : OrSet A V → OrSet A V → Set V
  unfolding add_keys
  all_values self other = add_keys (add_keys [] self.entries) other.entries

  -- The body of the first loop of `merge`, at one value.
  unfoldable pub merge_value :
      V → Map V (Set (UniqueTag A)) → Map V (Set (UniqueTag A)) → Map V (Set (UniqueTag A))
  unfolding get insert remove union
  merge_value value self other =
      let merged = union (or_default (get value self)) (or_default (get value other)) in
      if Set.is_empty merged then remove value self else insert value merged self

  unfoldable pub merge_values :
      Set V → Map V (Set (UniqueTag A)) → Map V (Set (UniqueTag A)) → Map V (Set (UniqueTag A))
  unfolding merge_value
  merge_values [] self other = self
  merge_values ((value, _) ∷ values) self other =
      merge_values values (merge_value value self other) other

  unfoldable pub merge : OrSet A V → OrSet A V → OrSet A V
  unfolding all_values merge_values merge_counts
  merge self other = record {
    entries = merge_values (all_values self other) self.entries other.entries;
    counters = merge_counts self.counters other.counters;
  }
