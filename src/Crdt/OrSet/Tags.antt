-- ===== src/Crdt/OrSet/Tags.antt =====
-- The tags of an observed-remove set: each stands at or below its actor's counter, so that an
-- addition makes a tag that no value has.
use ephemera_social.Base.{
  ℕ, ◌≤◌, ◌<◌, ◌≡◌, refl, [], ◌∷◌, Ord, nat_ord, pair_ord, true, false, arith, Bool-cases,
  Option-cases, inl, inr, u64_max, All, All-imp, wrapping_add,
}
use ephemera_social.Map.{Map, get, get_or_zero, insert}
use ephemera_social.Map.Laws.{
  get-insert, Values, Values-get, Values-insert, Values-remove, All-insert, All-get,
}
use ephemera_social.Map.Sorted.{IsSorted, insert-IsSorted, remove-IsSorted}
use ephemera_social.Set
use ephemera_social.Set.{Set, union, union-IsSorted, is_empty-add}
use ephemera_social.Crdt.GCounter.{merge_counts}
use ephemera_social.Crdt.GCounter.Merge.{merge_counts-IsSorted, get-merge_counts}
use ephemera_social.Crdt.OrSet.{
  OrSet, UniqueTag, new, or_default, add, discard, merge_value, merge_values, merge, all_values,
}
use ephemera_social.Crdt.OrSet.Merge.{merge-IsSorted}
use ephemera_social.Crdt.OrSet.Laws.{LiveTags}

module _ {ℓ} {A : Type ℓ} ⦃a : Ord A⦄ where
  -- Every tag of the set was numbered by these counters.
  abbrev pub Covered : Map A ℕ → Set (UniqueTag A) → Type 0
  Covered counters tags = All (λ e. e.0.1 ≤ get_or_zero e.0.0 counters) tags

  Covered-mono :
      (c d : Map A ℕ)
      → ((k : A) → get_or_zero k c ≤ get_or_zero k d)
      → (tags : Set (UniqueTag A)) → Covered c tags
      → Covered d tags
  Covered-mono c d h [] t = tt
  Covered-mono c d h (e ∷ tags) t = (omega (arith, h e.0.0), Covered-mono c d h tags t.1)

  Covered-union :
      (c : Map A ℕ) (s t : Set (UniqueTag A)) → Covered c s → Covered c t → Covered c (union s t)
  unfolding union
  Covered-union c s [] h k = h
  Covered-union c s ((x, u) ∷ t) h k =
      Covered-union c (Set.add x s) t (All-insert (λ e. e.0.1 ≤ get_or_zero e.0.0 c) x tt s k.0 h)
        k.1

  -- What a value's tags are, under these counters.
  abbrev pub SoundTags : Map A ℕ → Set (UniqueTag A) → Type 0
  SoundTags counters tags = LiveTags tags × Covered counters tags

module _ {ℓ κ} {A : Type ℓ} {V : Type κ} ⦃a : Ord A⦄ ⦃v : Ord V⦄ where
  -- The representation: ascending keys, live tags in order, and no tag above its actor's counter.
  pub record IsSound (x : OrSet A V) : Type 0 where
    pub sorted : IsSorted x.entries
    pub tags : Values (SoundTags x.counters) x.entries
    pub counted : IsSorted x.counters

  or_default-Covered :
      (q : V) (c : Map A ℕ) (m : Map V (Set (UniqueTag A)))
      → Values (SoundTags c) m
      → IsSorted (or_default (get q m)) × Covered c (or_default (get q m))
  or_default-Covered q c m h = elim (Option-cases (get q m)) [
    | inl e ↦ rw e (tt, tt)
    | inr (tags, e) ↦ let p = Values-get (SoundTags c) q m h e in rw e (p.0.0, p.1)
  ]

  Values-mono :
      (c d : Map A ℕ)
      → ((k : A) → get_or_zero k c ≤ get_or_zero k d)
      → (m : Map V (Set (UniqueTag A))) → Values (SoundTags c) m
      → Values (SoundTags d) m
  Values-mono c d h m = All-imp (λ e p. (p.0, Covered-mono c d h e.1 p.1)) m

  merge_value-tags :
      (c : Map A ℕ) (k : V) (self other : Map V (Set (UniqueTag A)))
      → Values (SoundTags c) self
      → Values (SoundTags c) other
      → Values (SoundTags c) (merge_value k self other)
  unfolding merge_value
  merge_value-tags c k self other h l =
      let s = or_default (get k self) in
      let t = or_default (get k other) in
      let p = or_default-Covered k c self h in
      let q = or_default-Covered k c other l in
      elim (Bool-cases (Set.is_empty (union s t))) [
        | inl e ↦ rw e (Values-remove (SoundTags c) k self h)
        | inr e ↦ rw e (
            Values-insert (SoundTags c) k (union s t) self
              ((union-IsSorted s t p.0, e), Covered-union c s t p.1 q.1) h)
      ]

  merge_values-tags :
      (c : Map A ℕ) (values : Set V) (self other : Map V (Set (UniqueTag A)))
      → Values (SoundTags c) self
      → Values (SoundTags c) other
      → Values (SoundTags c) (merge_values values self other)
  unfolding merge_values
  merge_values-tags c [] self other h l = h
  merge_values-tags c ((k, u) ∷ values) self other h l =
      merge_values-tags c values (merge_value k self other) other
        (merge_value-tags c k self other h l) l

  merge-IsSound : (x y : OrSet A V) → IsSound x → IsSound y → IsSound (merge x y)
  unfolding merge
  merge-IsSound x y h k =
      let c = merge_counts x.counters y.counters in
      record {
        sorted = merge-IsSorted x y h.sorted;
        tags =
            merge_values-tags c (all_values x y) x.entries y.entries
              (Values-mono x.counters c
                (λ q. ground (arith, get-merge_counts q x.counters y.counters k.counted)) x.entries
                h.tags)
              (Values-mono y.counters c
                (λ q. ground (arith, get-merge_counts q x.counters y.counters k.counted)) y.entries
                k.tags);
        counted = merge_counts-IsSorted x.counters y.counters h.counted;
      }

  add-IsSound :
      (actor : A) (value : V) (x : OrSet A V)
      → get_or_zero actor x.counters < u64_max
      → IsSound x
      → IsSound (add actor value x).0
  unfolding add
  add-IsSound actor value x room h =
      let seq = wrapping_add (get_or_zero actor x.counters) 1 in
      let c = insert actor seq x.counters in
      let tags = or_default (get value x.entries) in
      let grown =
        Values-mono x.counters c
          (λ q. ground (arith, get-insert q actor seq x.counters, a.cmp_eq q actor)) x.entries
          h.tags in
      let p = or_default-Covered value c x.entries grown in
      record {
        sorted = insert-IsSorted value (Set.add (actor, seq) tags) x.entries h.sorted;
        tags =
            Values-insert (SoundTags c) value (Set.add (actor, seq) tags) x.entries
              (
                (insert-IsSorted (actor, seq) tt tags p.0, is_empty-add (actor, seq) tags),
                All-insert (λ e. e.0.1 ≤ get_or_zero e.0.0 c) (actor, seq) tt tags
                    (ground (arith, get-insert actor actor seq x.counters, a.cmp_self actor)) p.1,
              )
              grown;
        counted = insert-IsSorted actor seq x.counters h.counted;
      }

  -- A new set is sound, and every operation keeps sound sets sound: an addition while the actor's
  -- counter is below the largest `u64`, any removal, and a merge of two sound sets.
  pub ops-IsSound :
      (actor : A) (value : V) (x y : OrSet A V)
      → get_or_zero actor x.counters < u64_max
      → IsSound x
      → IsSound y
      → IsSound new
        × IsSound (add actor value x).0
        × IsSound (discard value x).0
        × IsSound (merge x y)
  unfolding discard new
  ops-IsSound actor value x y room h k = (
    record { sorted = tt; tags = tt; counted = tt },
    add-IsSound actor value x room h,
    record {
      sorted = remove-IsSorted value x.entries h.sorted;
      tags = Values-remove (SoundTags x.counters) value x.entries h.tags;
      counted = h.counted;
    },
    merge-IsSound x y h k,
  )

  -- The tag that an addition to a sound set makes, while the actor's counter is below the largest
  -- `u64`, is that of no value before; afterwards the added value has it.
  pub add_fresh :
      (actor : A) (value q : V) (x : OrSet A V)
      → get_or_zero actor x.counters < u64_max
      → IsSound x
      → (Set.contains (add actor value x).1 (or_default (get q x.entries)) ≡ false)
        × (Set.contains (add actor value x).1 (or_default (get value (add actor value x).0.entries))
            ≡ true)
  unfolding add
  add_fresh actor value q x room h =
      let seq = wrapping_add (get_or_zero actor x.counters) 1 in
      let tags = or_default (get value x.entries) in
      (
        elim (Option-cases (get (actor, seq) (or_default (get q x.entries)))) [
          | inl e ↦ rw e refl
          | inr (u, e) ↦ absurd (
              let low =
                All-get (λ e. e.0.1 ≤ get_or_zero e.0.0 x.counters) (actor, seq)
                  (or_default (get q x.entries))
                  (or_default-Covered q x.counters x.entries h.tags).1 e in
              ground arith)
        ],
        ground (
          arith,
          get-insert value value (Set.add (actor, seq) tags) x.entries,
          v.cmp_self value,
          get-insert (actor, seq) (actor, seq) tt tags,
          a.cmp_self actor,
        ),
      )
