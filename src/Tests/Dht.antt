-- ===== src/Tests/Dht.antt =====
-- crates/ephemera-dht at small inputs.
use ephemera_social.Base.{
  ℕ, ◌+◌, ◌*◌, ◌≤◌, ◌<◌, ◌≡◌, ◌≢◌, ◌⊎◌, ◌↔◌, refl, none, some, List, [], ◌∷◌, ◌++◌, true, false,
  arith, length, min, same, list_ord, nat_ord, if◌then◌else◌, Ascends, ltb, any, keep, ◌||◌, Bytes,
  xor_bytes,
}
use mathlib.Core.List.{Perm}
use ephemera_social.Map
use ephemera_social.Map.{contains_key}
use ephemera_social.Types.NodeId.{NodeId, IsNodeId, xor_distance}
use ephemera_social.Dht.Record.{DhtRecord, profile, max_ttl_seconds}
use ephemera_social.Dht.Bucket
use ephemera_social.Dht.Bucket.{
  NodeEntry, KBucket, InsertResult, inserted, updated, bucket_full, new_entry, insert, evict_oldest,
  front, pop_front, back, front_id, has_id,
}
use ephemera_social.Dht.Bucket.Laws.{has, insert_outcome, evict_oldest_bounded}
use ephemera_social.Dht.Bucket.Twice.{evicted_twice}
use ephemera_social.Dht.Routing
use ephemera_social.Dht.Routing.{RoutingTable, closest, all_entries, total_entries}
use ephemera_social.Dht.Routing.Placement.{IsTable, new-IsTable, insert-IsTable}
use ephemera_social.Dht.Routing.Closest.{closest_nearest}
use ephemera_social.Dht.Storage
use ephemera_social.Dht.Storage.{DhtStorage, put, lookup, delete, sweep_expired, ok, expiry}
use ephemera_social.Dht.Storage.Laws.{storage_ops-IsValid, lookup-put, lookup-sweep, put-ok_iff}
use ephemera_social.Dht.Query
use ephemera_social.Dht.Query.{DhtQuery, process_find_node_response, unqueried, is_nil}
use ephemera_social.Dht.Query.Laws.{process-IsValid, known_answer}

program : Unit {0}
unfolding Bucket.insert evict_oldest Bucket.back Bucket.pop_back Routing.insert closest put lookup
    sweep_expired delete process_find_node_response Query.next_to_query new_entry any keep
program = tt

-- Node ids that differ in the first byte only.
abbrev node : ℕ → NodeId
node x =
    x ∷ 0 ∷ 0 ∷ 0 ∷ 0 ∷ 0 ∷ 0 ∷ 0 ∷ 0 ∷ 0 ∷ 0 ∷ 0 ∷ 0 ∷ 0 ∷ 0 ∷ 0 ∷ 0 ∷ 0 ∷ 0 ∷ 0 ∷ 0 ∷ 0 ∷ 0 ∷ 0
    ∷ 0 ∷ 0 ∷ 0 ∷ 0 ∷ 0 ∷ 0 ∷ 0 ∷ 0 ∷ []

abbrev peer : ℕ → NodeEntry
peer x = new_entry 5 (node x) []

abbrev pair_bucket : KBucket
pair_bucket = record { entries = peer 1 ∷ peer 2 ∷ []; replacement_cache = []; k = 2 }

-- A known node moves to the end.
moved : (insert (peer 1) pair_bucket).0.entries ≡ peer 2 ∷ peer 1 ∷ []
unfolding program
moved = refl

full : (insert (peer 3) pair_bucket).1 ≡ bucket_full (some (node 1))
unfolding program
full = refl

pair_bucket-IsValid : Bucket.Laws.IsValid pair_bucket
unfolding any new_entry
pair_bucket-IsValid = record {
  positive = omega arith;
  bounded = omega arith;
  cached = omega arith;
  distinct = (refl, (refl, tt));
}

insert_outcome_example :
    Bucket.Laws.IsValid (insert (peer 3) pair_bucket).0
    × ((insert (peer 3) pair_bucket).0.k ≡ 2)
    × ((back (insert (peer 3) pair_bucket).0.entries ≡ some (peer 3))
        ⊎ (((insert (peer 3) pair_bucket).0.entries ≡ pair_bucket.entries)
            × ((insert (peer 3) pair_bucket).1 ≡ bucket_full (front_id pair_bucket.entries))
            × (length pair_bucket.entries ≡ 2)
            × (has (peer 3).id pair_bucket.entries ≡ false)))
insert_outcome_example = insert_outcome (peer 3) pair_bucket pair_bucket-IsValid

evict_oldest_bounded_example :
    (length (evict_oldest pair_bucket).0.entries ≤ 2)
    × (length (evict_oldest pair_bucket).0.replacement_cache ≤ 2)
    × ((evict_oldest pair_bucket).1 ≡ front pair_bucket.entries)
evict_oldest_bounded_example =
    evict_oldest_bounded pair_bucket (omega arith) (omega arith) (omega arith)

evicted_twice_example :
    (evict_oldest (evict_oldest (insert (peer 3) (insert (peer 3) pair_bucket).0).0).0).0.entries
    ≡ peer 3 ∷ peer 3 ∷ []
unfolding any new_entry
evicted_twice_example = evicted_twice (peer 3) pair_bucket (omega arith) refl refl

node-IsNodeId : (x : ℕ) → x < 256 → IsNodeId (node x)
node-IsNodeId x h = (ground arith, refl)

new-IsTable_example :
    IsTable 20 (Routing.new (node 0) 20) × (total_entries (Routing.new (node 0) 20) ≡ 0)
new-IsTable_example = new-IsTable (node 0) 20 (node-IsNodeId 0 (omega arith)) (omega arith)

insert-IsTable_example :
    (t : RoutingTable) × (r : InsertResult) × (Routing.insert (peer 4) (Routing.new (node 0) 20)
      ≡ some (t, r))
    × IsTable 20 t
    × (t.local_id ≡ node 0)
    × (total_entries t ≤ 256 * 20)
unfolding new_entry Routing.new
insert-IsTable_example =
    insert-IsTable 20 (peer 4) (Routing.new (node 0) 20) (node-IsNodeId 4 (omega arith))
      new-IsTable_example.0

abbrev small_table : RoutingTable
small_table = record { local_id = node 0; buckets = pair_bucket ∷ [] }

closest_nearest_example :
    (others : List NodeEntry) × Perm
      (closest small_table (node 3) 1 ++ others)
      (all_entries small_table.buckets)
    × Ascends (λ e. xor_distance e.id (node 3)) (closest small_table (node 3) 1 ++ others)
    × (length (closest small_table (node 3) 1)
        ≡ min 1 (length (closest small_table (node 3) 1 ++ others)))
closest_nearest_example = closest_nearest small_table (node 3) 1

abbrev profile_record : DhtRecord
profile_record = record {
  key = 7 ∷ [];
  record_type = profile;
  value = 1 ∷ 2 ∷ [];
  publisher = [];
  timestamp = 1000;
  ttl_seconds = 60;
  signature = [];
}

abbrev empty_storage : DhtStorage
empty_storage = record { records = []; max_records = 2; max_record_size = 8 }

stored : lookup 1060 (7 ∷ []) (put 1000 profile_record empty_storage).0 ≡ some profile_record
unfolding program
stored = refl

expired_read : lookup 1061 (7 ∷ []) (put 1000 profile_record empty_storage).0 ≡ none
unfolding program
expired_read = refl

empty_storage-IsValid : Storage.Laws.IsValid empty_storage
empty_storage-IsValid = record { sorted = tt; bounded = omega arith; fit = tt }

storage_ops-IsValid_example :
    Storage.Laws.IsValid (put 1000 profile_record empty_storage).0
    × Storage.Laws.IsValid (delete (7 ∷ []) empty_storage).0
    × Storage.Laws.IsValid (sweep_expired 1000 empty_storage).0
storage_ops-IsValid_example =
    storage_ops-IsValid 1000 (7 ∷ []) profile_record empty_storage empty_storage-IsValid

lookup-put_example :
    (((put 1000 profile_record empty_storage).1 ≡ ok)
      × (lookup 1030 (7 ∷ []) (put 1000 profile_record empty_storage).0 ≡ (
          if same {K = Bytes} (7 ∷ []) profile_record.key
          then (if ltb (expiry profile_record) 1030 then none else some profile_record)
          else lookup 1030 (7 ∷ []) empty_storage)))
    ⊎ (((put 1000 profile_record empty_storage).1 ≢ ok)
        × ((put 1000 profile_record empty_storage).0 ≡ empty_storage))
lookup-put_example = lookup-put 1000 1030 (7 ∷ []) profile_record empty_storage

lookup-sweep_example :
    (lookup 1030 (7 ∷ []) (sweep_expired 1020 empty_storage).0 ≡ lookup 1030 (7 ∷ []) empty_storage)
    × (Map.size (sweep_expired 1020 empty_storage).0.records + (sweep_expired 1020 empty_storage).1
        ≡ 0)
    × (lookup 1030 (7 ∷ []) (delete (7 ∷ []) empty_storage).0
        ≡ (if same {K = Bytes} (7 ∷ []) (7 ∷ []) then none else lookup 1030 (7 ∷ []) empty_storage))
lookup-sweep_example =
    lookup-sweep 1020 1030 (7 ∷ []) (7 ∷ []) empty_storage empty_storage-IsValid (omega arith)

put-ok_iff_example : ((put 1000 profile_record empty_storage).1 ≡ ok) ↔ (
    (2 ≤ 8)
    × (60 ≤ max_ttl_seconds)
    × (1000 ≤ expiry profile_record)
    × ((contains_key profile_record.key empty_storage.records ≡ true) ⊎ (0 < 2)))
put-ok_iff_example = put-ok_iff 1000 profile_record empty_storage

-- A lookup that knows the nodes 1 and 2, and has asked nobody.
abbrev lookup_state : DhtQuery
lookup_state = record {
  target = node 0;
  local_id = node 9;
  alpha = 3;
  k = 20;
  queried = [];
  candidates = (node 1, node 1) ∷ (node 2, node 2) ∷ [];
  finished = false;
  found_value = none;
}

lookup_state-IsValid : Query.Laws.IsValid lookup_state
unfolding xor_distance xor_bytes
lookup_state-IsValid = record {
  sorted = ((refl, tt), (tt, tt));
  placed = ((refl, refl), ((refl, refl), tt));
}

process-IsValid_example :
    Query.Laws.IsValid (process_find_node_response (node 1) (node 5 ∷ []) lookup_state).0
process-IsValid_example = process-IsValid (node 1) (node 5 ∷ []) lookup_state lookup_state-IsValid

known_answer_example :
    (length (
        unqueried
          (process_find_node_response (node 1) (node 2 ∷ []) lookup_state).0.queried
          (process_find_node_response (node 1) (node 2 ∷ []) lookup_state).0.candidates)
      < length (unqueried lookup_state.queried lookup_state.candidates))
    × ((process_find_node_response (node 1) (node 2 ∷ []) lookup_state).0.candidates
        ≡ lookup_state.candidates)
    × ((process_find_node_response (node 1) (node 2 ∷ []) lookup_state).1 ≡ false)
    × ((process_find_node_response (node 1) (node 2 ∷ []) lookup_state).0.finished ≡ (
        is_nil (
          unqueried
            (process_find_node_response (node 1) (node 2 ∷ []) lookup_state).0.queried
            (process_find_node_response (node 1) (node 2 ∷ []) lookup_state).0.candidates)
        || lookup_state.finished))
unfolding any keep Map.get xor_distance xor_bytes
known_answer_example =
    known_answer (node 1) (node 2 ∷ []) lookup_state (omega arith) refl (refl, tt)
