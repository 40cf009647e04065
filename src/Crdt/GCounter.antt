-- ===== src/Crdt/GCounter.antt =====
-- crates/ephemera-crdt/src/gcounter.rs: a counter that only grows, with one slot for each actor.
pub mod Merge
pub mod Total
use ephemera_social.Base.{
  ℕ, ◌+◌, ◌%◌, max, List, [], ◌∷◌, Ord, saturating_add, wrapping_add, length,
}
use ephemera_social.Map
use ephemera_social.Map.{Map, get_or_zero, insert, values}

pub record GCounter {ℓ} (A : Type ℓ) : Type ℓ where
  pub counts : Map A ℕ

-- `iter().sum()` over `u64`: the addition of a release build.
unfoldable pub sum : List ℕ → ℕ
sum [] = 0
sum (x ∷ xs) = wrapping_add x (sum xs)

module _ {ℓ} {A : Type ℓ} where
  unfoldable pub new : GCounter A
  new = record { counts = Map.empty }

  unfoldable pub value : GCounter A → ℕ
  unfolding sum
  value c = sum (values c.counts)

  unfoldable pub actor_count : GCounter A → ℕ
  actor_count c = Map.size c.counts

module _ {ℓ} {A : Type ℓ} ⦃o : Ord A⦄ where
  unfoldable pub increment : A → ℕ → GCounter A → GCounter A
  unfolding insert Map.get
  increment actor amount c = record {
    counts = insert actor (saturating_add (get_or_zero actor c.counts) amount) c.counts;
  }

  unfoldable pub actor_value : A → GCounter A → ℕ
  unfolding Map.get
  actor_value actor c = get_or_zero actor c.counts

  -- The loop of `merge` over the other side's entries. (`OrSet::merge` has the same loop.)
  unfoldable pub merge_counts : Map A ℕ → Map A ℕ → Map A ℕ
  unfolding insert Map.get
  merge_counts counts [] = counts
  merge_counts counts ((actor, count) ∷ rest) =
      merge_counts (insert actor (max (get_or_zero actor counts) count) counts) rest

  unfoldable pub merge : GCounter A → GCounter A → GCounter A
  unfolding merge_counts
  merge self other = record { counts = merge_counts self.counts other.counts }
