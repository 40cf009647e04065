-- ===== src/Crdt/GCounter/Merge.antt =====
-- `GCounter::merge` as the pointwise maximum, and its laws as equations between counters.
use ephemera_social.Base.{
  ℕ, max, [], ◌∷◌, Ord, ◌≡◌, ap, ◌∙◌, sym, Option, none, some, arith, same, if◌then◌else◌,
  saturating_add,
}
use ephemera_social.Map.{Map, get_or_zero, get, insert}
use ephemera_social.Map.Laws.{get-insert}
use ephemera_social.Map.Sorted.{IsSorted, insert-IsSorted, map_ext, get-Above}
use ephemera_social.Crdt.GCounter.{GCounter, increment, actor_value, merge, merge_counts}

-- The larger of two slots, where either may be missing.
abbrev pub join : Option ℕ → Option ℕ → Option ℕ
join none b = b
join (some a) none = some a
join (some a) (some b) = some (max a b)

join_comm : (a b : Option ℕ) → join a b ≡ join b a
join_comm a b = ground arith

join_assoc : (a b c : Option ℕ) → join (join a b) c ≡ join a (join b c)
join_assoc a b c = ground arith

join_self : (a : Option ℕ) → join a a ≡ a
join_self a = ground arith

module _ {ℓ} {A : Type ℓ} ⦃o : Ord A⦄ where
  -- Each slot after the loop is the larger of the two.
  pub get-merge_counts :
      (q : A) (m n : Map A ℕ) → IsSorted n → get q (merge_counts m n) ≡ join (get q m) (get q n)
  unfolding merge_counts get
  get-merge_counts q m [] s = ground arith
  get-merge_counts q m ((k, c) ∷ n) s =
      get-merge_counts q (insert k (max (get_or_zero k m) c) m) n s.1
      ∙ ground (arith, get-insert q k (max (get_or_zero k m) c) m, get-Above k n s.0, o.cmp_eq q k)

  pub merge_counts-IsSorted : (m n : Map A ℕ) → IsSorted m → IsSorted (merge_counts m n)
  unfolding merge_counts
  merge_counts-IsSorted m [] s = s
  merge_counts-IsSorted m ((k, c) ∷ n) s =
      merge_counts-IsSorted (insert k (max (get_or_zero k m) c) m) n
        (insert-IsSorted k (max (get_or_zero k m) c) m s)

  pub merge_counts_comm :
      (m n : Map A ℕ) → IsSorted m → IsSorted n → merge_counts m n ≡ merge_counts n m
  merge_counts_comm m n s t =
      map_ext _ _ (merge_counts-IsSorted m n s) (merge_counts-IsSorted n m t) (λ q.
        get-merge_counts q m n t ∙ join_comm (get q m) (get q n) ∙ sym (get-merge_counts q n m s))

  pub merge_counts_assoc :
      (l m n : Map A ℕ)
      → IsSorted l
      → IsSorted m
      → IsSorted n
      → merge_counts (merge_counts l m) n ≡ merge_counts l (merge_counts m n)
  merge_counts_assoc l m n r s t =
      map_ext _ _ (merge_counts-IsSorted _ n (merge_counts-IsSorted l m r))
        (merge_counts-IsSorted l _ r)
        (λ q. cc (
          get-merge_counts q (merge_counts l m) n t,
          get-merge_counts q l m s,
          get-merge_counts q l (merge_counts m n) (merge_counts-IsSorted m n s),
          get-merge_counts q m n t,
          join_assoc (get q l) (get q m) (get q n),
        ))

  pub merge_counts_self : (m : Map A ℕ) → IsSorted m → merge_counts m m ≡ m
  merge_counts_self m s =
      map_ext _ _ (merge_counts-IsSorted m m s) s
        (λ q. get-merge_counts q m m s ∙ join_self (get q m))

  -- A counter keeps one slot for each actor, in ascending order.
  abbrev pub IsValid : GCounter A → Type 0
  IsValid c = IsSorted c.counts

  -- Every operation on counters keeps one slot for each actor, in order.
  pub counter_ops-IsValid :
      (actor : A) (amount : ℕ) (c d : GCounter A)
      → IsValid c
      → IsValid (increment actor amount c) × IsValid (merge c d)
  unfolding increment merge
  counter_ops-IsValid actor amount c d s =
      (insert-IsSorted actor _ c.counts s, merge_counts-IsSorted c.counts d.counts s)

  -- On counters with one slot for each actor, merging is commutative, associative and idempotent:
  -- the results are equal counters, slot by slot and in the order of their slots.
  pub counter_merge_laws :
      (a b c : GCounter A)
      → IsValid a
      → IsValid b
      → IsValid c
      → (merge a b ≡ merge b a) × (merge (merge a b) c ≡ merge a (merge b c)) × (merge a a ≡ a)
  unfolding merge
  counter_merge_laws a b c r s t = (
    ap (λ m. record { counts = m }) (merge_counts_comm a.counts b.counts r s),
    ap (λ m. record { counts = m }) (merge_counts_assoc a.counts b.counts c.counts r s t),
    ap (λ m. record { counts = m }) (merge_counts_self a.counts r),
  )

  -- After an increment the actor's slot holds the sum, held at the largest `u64`, and every other
  -- slot is as it was; after a merge of `c` with a valid `d` each slot is the larger of the two.
  pub actor_value-ops :
      (q actor : A) (amount : ℕ) (c d : GCounter A)
      → IsValid d
      → (actor_value q (increment actor amount c)
          ≡ (if same q actor then saturating_add (actor_value actor c) amount else actor_value q c))
        × (actor_value q (merge c d) ≡ max (actor_value q c) (actor_value q d))
  unfolding actor_value increment merge
  actor_value-ops q actor amount c d s = (
    ground
        (arith, get-insert q actor (saturating_add (get_or_zero actor c.counts) amount) c.counts),
    ground (arith, get-merge_counts q c.counts d.counts s),
  )
