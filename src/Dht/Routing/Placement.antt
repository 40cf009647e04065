-- ===== src/Dht/Routing/Placement.antt =====
-- The routing table's shape: 256 valid buckets, each entry in the bucket of its distance.
use ephemera_social.Base.{
  ℕ, zero, suc, ◌+◌, ◌*◌, ◌≤◌, ◌<◌, ◌≡◌, refl, ap, ◌∙◌, Option, none, some, List, [], ◌∷◌, length,
  same, list_ord, nat_ord, arith, All, All-append, Bool-cases, inl, inr,
}
use ephemera_social.Types.NodeId.{
  NodeId, IsNodeId, leading_zeros_distance_bound, leading_zeros_distance,
}
use ephemera_social.Dht.Bucket
use ephemera_social.Dht.Bucket.{
  NodeEntry, KBucket, InsertResult, updated, remove_id, cache, pop_front,
}
use ephemera_social.Dht.Bucket.Laws.{IsValid, insert_outcome}
use ephemera_social.Dht.Routing.{
  RoutingTable, new_buckets, new, bucket_index, insert_at, insert_into, insert, sum_len,
  total_entries, id_bits,
}

-- The node belongs into bucket `i` of a table of this local id.
abbrev pub Placed : NodeId → ℕ → NodeEntry → Type 0
Placed local_id i e = leading_zeros_distance local_id e.id ≡ some i

-- A bucket of the table: valid, of the table's size, with entries and cached nodes that belong there.
pub record IsBucket (local_id : NodeId) (k i : ℕ) (b : KBucket) : Type 0 where
  pub valid : IsValid b
  pub sized : b.k ≡ k
  pub placed : All (Placed local_id i) b.entries
  pub cached : All (Placed local_id i) b.replacement_cache

-- The buckets from number `i` on.
abbrev pub AreBuckets : NodeId → ℕ → ℕ → List KBucket → Type 0
AreBuckets local_id k i [] = Unit
AreBuckets local_id k i (b ∷ bs) = IsBucket local_id k i b × AreBuckets local_id k (suc i) bs

pub record IsTable (k : ℕ) (t : RoutingTable) : Type 0 where
  pub local : IsNodeId t.local_id
  pub count : length t.buckets ≡ id_bits
  pub buckets : AreBuckets t.local_id k 0 t.buckets

remove_id-All :
    (P : NodeEntry → Type 0) (id : NodeId) (es : List NodeEntry)
    → All P es
    → All P (remove_id id es)
unfolding remove_id
remove_id-All P id [] h = tt
remove_id-All P id (e ∷ es) h = ground (arith, remove_id-All P id es)

pop_front-All : (P : NodeEntry → Type 0) (es : List NodeEntry) → All P es → All P (pop_front es)
pop_front-All P [] h = tt
pop_front-All P (e ∷ es) h = h.1

bucket-All :
    (P : NodeEntry → Type 0) (x : NodeEntry) (b : KBucket)
    → P x
    → All P b.entries
    → All P b.replacement_cache
    → All P (Bucket.insert x b).0.entries × All P (Bucket.insert x b).0.replacement_cache
unfolding Bucket.insert cache
bucket-All P x b p h k =
    let one : All P (x ∷ []) = (p, tt) in
    ground (
      arith,
      All-append P (remove_id x.id b.entries) (x ∷ []) (remove_id-All P x.id b.entries h) one,
      All-append P b.entries (x ∷ []) h one,
      All-append P b.replacement_cache (x ∷ []) k one,
      All-append P (pop_front b.replacement_cache) (x ∷ []) (pop_front-All P b.replacement_cache k)
          one,
    )

IsBucket-insert :
    (local_id : NodeId) (k i : ℕ) (x : NodeEntry) (b : KBucket)
    → Placed local_id i x
    → IsBucket local_id k i b
    → IsBucket local_id k i (Bucket.insert x b).0
IsBucket-insert local_id k i x b p h =
    let out = insert_outcome x b h.valid in
    let kept = bucket-All (Placed local_id i) x b p h.placed h.cached in
    record { valid = out.0; sized = out.1 ∙ h.sized; placed = kept.0; cached = kept.1 }

insert_at-AreBuckets :
    (local_id : NodeId) (k i n : ℕ) (x : NodeEntry) (bs : List KBucket)
    → AreBuckets local_id k i bs
    → Placed local_id (i + n) x
    → n < length bs
    → (bs' : List KBucket) × (r : InsertResult) × (insert_at n x bs ≡ some (bs', r))
      × AreBuckets local_id k i bs'
      × (length bs' ≡ length bs)
unfolding insert_at
insert_at-AreBuckets local_id k i n x [] h p l = absurd (omega arith)
insert_at-AreBuckets local_id k i zero x (b ∷ bs) h p l = (
  (Bucket.insert x b).0 ∷ bs,
  (Bucket.insert x b).1,
  refl,
  (IsBucket-insert local_id k i x b (p ∙ ap some (omega arith)) h.0, h.1),
  refl,
)
insert_at-AreBuckets local_id k i (suc n) x (b ∷ bs) h p l =
    let (bs', r, e, good, size) =
      insert_at-AreBuckets local_id k (suc i) n x bs h.1 (p ∙ ap some (omega arith))
        (omega arith) in
    (b ∷ bs', r, rw e refl, (h.0, good), ap suc size)

sum_len-AreBuckets :
    (local_id : NodeId) (k i : ℕ) (bs : List KBucket)
    → AreBuckets local_id k i bs
    → sum_len bs ≤ length bs * k
unfolding sum_len
sum_len-AreBuckets local_id k i [] h = omega arith
sum_len-AreBuckets local_id k i (b ∷ bs) h =
    omega (arith, sum_len-AreBuckets local_id k (suc i) bs h.1, h.0.sized, h.0.valid.bounded)

new_buckets-AreBuckets :
    (local_id : NodeId) (n k i : ℕ)
    → 0 < k
    → AreBuckets local_id k i (new_buckets n k) × (length (new_buckets n k) ≡ n)
unfolding new_buckets
new_buckets-AreBuckets local_id zero k i p = (tt, refl)
new_buckets-AreBuckets local_id (suc n) k i p =
    let rest = new_buckets-AreBuckets local_id n k (suc i) p in
    (
      (
        record {
          valid = record {
            positive = p;
            bounded = omega arith;
            cached = omega arith;
            distinct = tt;
          };
          sized = refl;
          placed = tt;
          cached = tt;
        },
        rest.0,
      ),
      ap suc rest.1,
    )

-- For a node id and a positive size, a new table is well formed and empty.
pub new-IsTable :
    (local_id : NodeId) (k : ℕ)
    → IsNodeId local_id
    → 0 < k
    → IsTable k (new local_id k) × (total_entries (new local_id k) ≡ 0)
unfolding new total_entries
new-IsTable local_id k h p =
    let fresh = new_buckets-AreBuckets local_id 256 k 0 p in
    (record { local = h; count = fresh.1; buckets = fresh.0 }, refl)

total_entries-le : (k : ℕ) (t : RoutingTable) → IsTable k t → total_entries t ≤ 256 * k
unfolding total_entries
total_entries-le k t v =
    let h : length t.buckets ≡ 256 = v.count in
    rw (← h) (sum_len-AreBuckets t.local_id k 0 t.buckets v.buckets)

insert_into-IsTable :
    (k : ℕ) (x : NodeEntry) (t : RoutingTable) (o : Option ℕ)
    → IsNodeId x.id
    → IsTable k t
    → leading_zeros_distance t.local_id x.id ≡ o
    → (t' : RoutingTable) × (r : InsertResult) × (insert_into t x o ≡ some (t', r))
      × IsTable k t'
      × (t'.local_id ≡ t.local_id)
insert_into-IsTable k x t none h v e = (t, updated, refl, v, refl)
insert_into-IsTable k x t (some n) h v e =
    let small = leading_zeros_distance_bound t.local_id x.id v.local h e in
    let (bs, r, done, good, size) =
      insert_at-AreBuckets t.local_id k 0 n x t.buckets v.buckets (e ∙ ap some (omega arith))
        (omega arith) in
    (
      record t { buckets = bs },
      r,
      rw done refl,
      record { local = v.local; count = size ∙ v.count; buckets = good },
      refl,
    )

-- Inserting an entry with a node id into a well-formed table never indexes a bucket out of bounds:
-- it gives a well-formed table of the same local id, with every node in the bucket of its distance,
-- and at most 256 buckets' worth of nodes.
pub insert-IsTable :
    (k : ℕ) (x : NodeEntry) (t : RoutingTable)
    → IsNodeId x.id
    → IsTable k t
    → (t' : RoutingTable) × (r : InsertResult) × (insert x t ≡ some (t', r))
      × IsTable k t'
      × (t'.local_id ≡ t.local_id)
      × (total_entries t' ≤ 256 * k)
unfolding insert bucket_index
insert-IsTable k x t h v = elim (Bool-cases (same x.id t.local_id)) [
  | inl e ↦ (t, updated, rw e refl, v, refl, total_entries-le k t v)
  | inr e ↦
      let (t', r, done, good, own) =
        insert_into-IsTable k x t (leading_zeros_distance t.local_id x.id) h v refl in
      (t', r, rw e done, good, own, total_entries-le k t' good)
]
