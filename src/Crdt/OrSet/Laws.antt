-- ===== src/Crdt/OrSet/Laws.antt =====
-- The merge of observed-remove sets: membership, and the laws of a join as equations.
use ephemera_social.Base.{
  ◌≡◌, refl, [], ◌∷◌, Ord, nat_ord, pair_ord, false, ◌||◌, same, if◌then◌else◌, arith, Option-cases,
  inl, inr, wrapping_add,
}
use ephemera_social.Map.{get, get_or_zero}
use ephemera_social.Map.Laws.{get-insert, get-remove, Values, Values-get}
use ephemera_social.Map.Sorted.{IsSorted, map_ext}
use ephemera_social.Set
use ephemera_social.Set.{
  Set, union, union_comm, union_assoc, union_self, union-IsSorted, is_empty-union, is_empty-add,
}
use ephemera_social.Crdt.GCounter.Merge.{merge_counts_comm, merge_counts_assoc, merge_counts_self}
use ephemera_social.Crdt.OrSet.{OrSet, UniqueTag, or_default, merge, add, contains, discard}
use ephemera_social.Crdt.OrSet.Merge.{slot, get-merge, merge-IsSorted}

module _ {ℓ} {A : Type ℓ} where
  or_default-slot : (tags : Set (UniqueTag A)) → or_default (slot tags) ≡ tags
  or_default-slot [] = refl
  or_default-slot (t ∷ tags) = refl

module _ {ℓ} {A : Type ℓ} ⦃a : Ord A⦄ where
  -- A set of tags that a value may have: in order, and not empty.
  abbrev pub LiveTags : Set (UniqueTag A) → Type 0
  LiveTags tags = IsSorted tags × (Set.is_empty tags ≡ false)

module _ {ℓ κ} {A : Type ℓ} {V : Type κ} ⦃a : Ord A⦄ ⦃v : Ord V⦄ where
  pub record IsValid (x : OrSet A V) : Type 0 where
    pub sorted : IsSorted x.entries
    pub live : Values LiveTags x.entries
    pub counted : IsSorted x.counters

  slot-or_default :
      (q : V) (x : OrSet A V) → IsValid x → slot (or_default (get q x.entries)) ≡ get q x.entries
  slot-or_default q x h = elim (Option-cases (get q x.entries)) [
    | inl e ↦ rw e refl
    | inr (tags, e) ↦ rw e (rw ((Values-get LiveTags q x.entries h.live e).1) refl)
  ]

  tags-IsSorted : (q : V) (x : OrSet A V) → IsValid x → IsSorted (or_default (get q x.entries))
  tags-IsSorted q x h = elim (Option-cases (get q x.entries)) [
    | inl e ↦ rw e tt
    | inr (tags, e) ↦ rw e ((Values-get LiveTags q x.entries h.live e).0)
  ]

  entries_comm :
      (x y : OrSet A V) → IsValid x → IsValid y → (merge x y).entries ≡ (merge y x).entries
  entries_comm x y h k =
      map_ext _ _ (merge-IsSorted x y h.sorted) (merge-IsSorted y x k.sorted) (λ q. cc (
        get-merge q x y,
        get-merge q y x,
        union_comm (or_default (get q x.entries)) (or_default (get q y.entries))
            (tags-IsSorted q x h) (tags-IsSorted q y k),
      ))

  entries_assoc :
      (x y z : OrSet A V)
      → IsValid x
      → IsValid y
      → IsValid z
      → (merge (merge x y) z).entries ≡ (merge x (merge y z)).entries
  entries_assoc x y z h k l =
      map_ext _ _ (merge-IsSorted _ z (merge-IsSorted x y h.sorted)) (merge-IsSorted x _ h.sorted)
        (λ q.
          let s = or_default (get q x.entries) in
          let t = or_default (get q y.entries) in
          let u = or_default (get q z.entries) in
          cc (
            get-merge q (merge x y) z,
            get-merge q x y,
            get-merge q x (merge y z),
            get-merge q y z,
            or_default-slot (union s t),
            or_default-slot (union t u),
            union_assoc s t u (tags-IsSorted q x h) (tags-IsSorted q y k) (tags-IsSorted q z l),
          ))

  entries_self : (x : OrSet A V) → IsValid x → (merge x x).entries ≡ x.entries
  entries_self x h = map_ext _ _ (merge-IsSorted x x h.sorted) h.sorted (λ q. cc (
    get-merge q x x,
    union_self (or_default (get q x.entries)) (tags-IsSorted q x h),
    slot-or_default q x h,
  ))

  or_set_ext : {x y : OrSet A V} → x.entries ≡ y.entries → x.counters ≡ y.counters → x ≡ y
  or_set_ext p q = λ i. record { entries = p i; counters = q i }

  -- On well-formed sets merging is commutative, associative and idempotent: the results are equal
  -- sets, with the same live tags for each value and the same counters.
  pub or_set_merge_laws :
      (x y z : OrSet A V)
      → IsValid x
      → IsValid y
      → IsValid z
      → (merge x y ≡ merge y x) × (merge (merge x y) z ≡ merge x (merge y z)) × (merge x x ≡ x)
  unfolding merge
  or_set_merge_laws x y z h k l = (
    or_set_ext (entries_comm x y h k) (merge_counts_comm x.counters y.counters h.counted k.counted),
    or_set_ext (entries_assoc x y z h k l)
        (merge_counts_assoc x.counters y.counters z.counters h.counted k.counted l.counted),
    or_set_ext (entries_self x h) (merge_counts_self x.counters h.counted),
  )

  contains_join :
      (q : V) (x y : OrSet A V) → contains q (merge x y) ≡ (contains q x || contains q y)
  unfolding contains
  contains_join q x y = ground (
    arith,
    get-merge q x y,
    is_empty-union (or_default (get q x.entries)) (or_default (get q y.entries)),
  )

  contains-discard :
      (q r : V) (x : OrSet A V)
      → contains q (discard r x).0 ≡ (if same q r then false else contains q x)
  unfolding contains discard
  contains-discard q r x = ground (arith, get-remove q r x.entries)

  contains-add :
      (q r : V) (actor : A) (x : OrSet A V)
      → contains q (add actor r x).0 ≡ (same q r || contains q x)
  unfolding contains add
  contains-add q r actor x =
      let seq = wrapping_add (get_or_zero actor x.counters) 1 in
      let tags = or_default (get r x.entries) in
      ground (
        arith,
        get-insert q r (Set.add (actor, seq) tags) x.entries,
        is_empty-add (actor, seq) tags,
      )

  discarded : (r : V) (x : OrSet A V) → IsValid x → (discard r x).1 ≡ contains r x
  unfolding discard contains
  discarded r x h = elim (Option-cases (get r x.entries)) [
    | inl e ↦ rw e refl
    | inr (tags, e) ↦ rw e (rw ((Values-get LiveTags r x.entries h.live e).1) refl)
  ]

  -- An added value is in the set and the others are as they were; a removed value is not in the set
  -- and the others are as they were, and on a well-formed set the removal returns whether the value
  -- was in it; and a value is in a merged set exactly if it is in one of the two.
  pub contains-ops :
      (q r : V) (actor : A) (x y : OrSet A V)
      → IsValid x
      → (contains q (add actor r x).0 ≡ (same q r || contains q x))
        × (contains q (discard r x).0 ≡ (if same q r then false else contains q x))
        × ((discard r x).1 ≡ contains r x)
        × (contains q (merge x y) ≡ (contains q x || contains q y))
  contains-ops q r actor x y h =
      (contains-add q r actor x, contains-discard q r x, discarded r x h, contains_join q x y)

  -- A removal does not survive a merge: after it, a merge with any other set has the removed value
  -- exactly if that set has it, whether or not it had seen the same additions.
  pub removal_undone :
      (r : V) (x y : OrSet A V) → contains r (merge (discard r x).0 y) ≡ contains r y
  removal_undone r x y =
      ground (arith, contains_join r (discard r x).0 y, contains-discard r r x, v.cmp_self r)
