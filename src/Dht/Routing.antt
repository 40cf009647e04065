-- ===== src/Dht/Routing.antt =====
-- `RoutingTable` of crates/ephemera-dht/src/routing.rs: 256 buckets, by the first bit in which a
-- node's id differs from the local one.
pub mod Placement
pub mod Closest
use ephemera_social.Base.{
  ℕ, zero, suc, ◌+◌, Option, none, some, List, [], ◌∷◌, ◌++◌, length, take, sort_by_key, same,
  list_ord, nat_ord, if◌then◌else◌, Bool, true, false,
}
use ephemera_social.Types.NodeId.{NodeId, xor_distance, leading_zeros_distance}
use ephemera_social.Dht.Bucket
use ephemera_social.Dht.Bucket.{NodeEntry, KBucket, InsertResult, updated}

abbrev pub id_bits : ℕ
id_bits = 256

pub record RoutingTable : Type 0 where
  pub local_id : NodeId
  pub buckets : List KBucket

-- `(0..n).map(|_| KBucket::new(k)).collect()`
unfoldable pub new_buckets : ℕ → ℕ → List KBucket
unfolding Bucket.new
new_buckets zero k = []
new_buckets (suc n) k = Bucket.new k ∷ new_buckets n k

unfoldable pub new : NodeId → ℕ → RoutingTable
unfolding new_buckets
new local_id k = record { local_id = local_id; buckets = new_buckets id_bits k }

unfoldable pub bucket_index : RoutingTable → NodeId → Option ℕ
unfolding leading_zeros_distance
bucket_index t id = leading_zeros_distance t.local_id id

-- `self.buckets[idx].insert(entry)`; `none` is the panic of an index out of bounds.
unfoldable pub insert_at : ℕ → NodeEntry → List KBucket → Option (List KBucket × InsertResult)
unfolding Bucket.insert
insert_at i entry [] = none
insert_at zero entry (b ∷ bs) = some ((Bucket.insert entry b).0 ∷ bs, (Bucket.insert entry b).1)
insert_at (suc i) entry (b ∷ bs) = elim (insert_at i entry bs) [
  | none ↦ none
  | some (bs', r) ↦ some (b ∷ bs', r)
]

abbrev pub with_buckets :
    RoutingTable → Option (List KBucket × InsertResult) → Option (RoutingTable × InsertResult)
with_buckets t none = none
with_buckets t (some (bs, r)) = some (record t { buckets = bs }, r)

-- The `match` of `insert`.
abbrev pub insert_into : RoutingTable → NodeEntry → Option ℕ → Option (RoutingTable × InsertResult)
insert_into t entry none = some (t, updated)
insert_into t entry (some idx) = with_buckets t (insert_at idx entry t.buckets)

unfoldable pub insert : NodeEntry → RoutingTable → Option (RoutingTable × InsertResult)
unfolding bucket_index insert_at
insert entry t =
    if same entry.id t.local_id
    then some (t, updated)
    else insert_into t entry (bucket_index t entry.id)

-- `buckets.iter().flat_map(|b| b.entries().iter())`
unfoldable pub all_entries : List KBucket → List NodeEntry
all_entries [] = []
all_entries (b ∷ bs) = b.entries ++ all_entries bs

unfoldable pub sorted_entries : RoutingTable → NodeId → List NodeEntry
unfolding all_entries sort_by_key xor_distance
sorted_entries t target = sort_by_key (λ e. xor_distance e.id target) (all_entries t.buckets)

unfoldable pub closest : RoutingTable → NodeId → ℕ → List NodeEntry
unfolding sorted_entries
closest t target count = take count (sorted_entries t target)

-- `buckets.iter().map(KBucket::len).sum()`
unfoldable pub sum_len : List KBucket → ℕ
unfolding Bucket.len
sum_len [] = 0
sum_len (b ∷ bs) = Bucket.len b + sum_len bs

unfoldable pub total_entries : RoutingTable → ℕ
unfolding sum_len
total_entries t = sum_len t.buckets
