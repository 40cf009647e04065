-- ===== src/Crdt/GCounter/Total.antt =====
-- The value of a counter: the sum of its slots, which no merge lowers.
use ephemera_social.Base.{ℕ, ◌+◌, ◌≤◌, ◌<◌, max, List, [], ◌∷◌, Ord, ◌≡◌, refl, ap, arith, u64_size}
use ephemera_social.Map.{Map, get_or_zero, get, insert, values}
use ephemera_social.Map.Sorted.{IsSorted, insert-IsSorted, get-Above, Above-lower}
use ephemera_social.Crdt.GCounter.{GCounter, value, sum, merge, merge_counts}
use ephemera_social.Crdt.GCounter.Merge.{IsValid, counter_merge_laws}

-- The sum with no bound.
unfoldable pub total : List ℕ → ℕ
total [] = 0
total (x ∷ xs) = x + total xs

sum-eq-total : (xs : List ℕ) → total xs < u64_size → sum xs ≡ total xs
unfolding sum total
sum-eq-total [] h = refl
sum-eq-total (x ∷ xs) h = ground (arith, sum-eq-total xs)

module _ {ℓ} {A : Type ℓ} ⦃o : Ord A⦄ where
  total-insert :
      (k : A) (v : ℕ) (m : Map A ℕ)
      → IsSorted m
      → total (values (insert k v m)) + get_or_zero k m ≡ total (values m) + v
  unfolding total insert get
  total-insert k v [] s = ground arith
  total-insert k v ((j, w) ∷ m) s = ground (
    arith,
    total-insert k v m,
    get-Above k m,
    Above-lower k j m,
    get-Above j m,
    o.cmp_eq k j,
    o.cmp_flip k j,
  )

  total-merge_counts :
      (m n : Map A ℕ) → IsSorted m → total (values m) ≤ total (values (merge_counts m n))
  unfolding merge_counts
  total-merge_counts m [] s = omega arith
  total-merge_counts m ((k, c) ∷ n) s =
      let v = max (get_or_zero k m) c in
      ground
        (arith, total-insert k v m s, total-merge_counts (insert k v m) n (insert-IsSorted k v m s))

  -- Where the slots of the merged counter add up to less than 2^64, its value is their sum, and at
  -- least as large as the value of either side.
  pub value-merge_le :
      (a b : GCounter A)
      → IsValid a
      → IsValid b
      → total (values (merge a b).counts) < u64_size
      → (value (merge a b) ≡ total (values (merge a b).counts))
        × (value a ≤ value (merge a b))
        × (value b ≤ value (merge a b))
  unfolding value merge
  value-merge_le a b s t h =
      let swap = ap (λ c. total (values (c.counts))) (counter_merge_laws a b b s t t).0 in
      ground (
        arith,
        sum-eq-total (values (merge_counts a.counts b.counts)) h,
        sum-eq-total (values a.counts),
        sum-eq-total (values b.counts),
        total-merge_counts a.counts b.counts s,
        total-merge_counts b.counts a.counts t,
        swap,
      )
