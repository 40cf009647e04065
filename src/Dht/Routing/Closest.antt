-- ===== src/Dht/Routing/Closest.antt =====
-- `RoutingTable::closest`: what it returns is nothing but the nearest known nodes.
use ephemera_social.Base.{
  take-append-drop, drop, ℕ, ◌≡◌, min, List, ◌++◌, length, length-take, list_ord, nat_ord, Ascends,
  sort_by_key-Ascends, sort_by_key-perm,
}
use mathlib.Core.List.{Perm}
use ephemera_social.Types.NodeId.{NodeId, xor_distance}
use ephemera_social.Dht.Bucket.{NodeEntry}
use ephemera_social.Dht.Routing.{RoutingTable, all_entries, sorted_entries, closest}

-- The nodes that `closest` returns, followed by some others, are all nodes of the table, in the
-- ascending order of their distance to the target: so none that is left out is nearer than one
-- that is returned.
pub closest_nearest :
    (t : RoutingTable) (target : NodeId) (count : ℕ)
    → (others : List NodeEntry) × Perm (closest t target count ++ others) (all_entries t.buckets)
      × Ascends (λ e. xor_distance e.id target) (closest t target count ++ others)
      × (length (closest t target count) ≡ min count (length (closest t target count ++ others)))
unfolding closest sorted_entries
closest_nearest t target count =
    let xs = sorted_entries t target in
    let whole = take-append-drop count xs in
    (
      drop count xs,
      rw whole (sort_by_key-perm (λ e. xor_distance e.id target) (all_entries t.buckets)),
      rw whole (sort_by_key-Ascends (λ e. xor_distance e.id target) (all_entries t.buckets)),
      rw whole (length-take count xs),
    )
