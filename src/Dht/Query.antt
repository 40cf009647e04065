-- ===== src/Dht/Query.antt =====
-- crates/ephemera-dht/src/query.rs: one iterative lookup. Nodes are asked nearest first, and their
-- answers add candidates.
pub mod Laws
use ephemera_social.Base.{
  ℕ, Option, none, some, List, [], ◌∷◌, Bool, true, false, not, if◌then◌else◌, same, list_ord,
  nat_ord, Bytes, keep, take, length, is_some, ◌||◌,
}
use ephemera_social.Map
use ephemera_social.Map.{Map, insert, get, values, contains_key}
use ephemera_social.Set
use ephemera_social.Set.{Set}
use ephemera_social.Types.NodeId.{NodeId, xor_distance}
use ephemera_social.Dht.Bucket.{NodeEntry}
use ephemera_social.Dht.Record.{DhtRecord, DhtConfig}
use ephemera_social.Dht.Routing.{RoutingTable, closest}

pub record DhtQuery : Type 0 where
  pub target : Bytes
  pub local_id : NodeId
  pub alpha : ℕ
  pub k : ℕ
  pub queried : Set NodeId
  pub candidates : Map Bytes NodeId
  pub finished : Bool
  pub found_value : Option DhtRecord

-- The loop of `new` over the seeds.
unfoldable pub seed : Bytes → List NodeEntry → Map Bytes NodeId → Map Bytes NodeId
unfolding insert xor_distance
seed target [] candidates = candidates
seed target (e ∷ es) candidates = seed target es (insert (xor_distance e.id target) e.id candidates)

unfoldable pub new : Bytes → DhtConfig → RoutingTable → DhtQuery
unfolding seed closest
new target config table = record {
  target = target;
  local_id = table.local_id;
  alpha = config.alpha;
  k = config.k;
  queried = Set.empty;
  candidates = seed target (closest table target config.k) Map.empty;
  finished = false;
  found_value = none;
}

-- The candidates that were not asked yet, nearest first.
abbrev pub unqueried : Set NodeId → Map Bytes NodeId → List NodeId
unqueried queried candidates = keep (λ id. not (Set.contains id queried)) (values candidates)

unfoldable pub next_to_query : DhtQuery → List NodeId
unfolding keep get
next_to_query q = take q.alpha (unqueried q.queried q.candidates)

-- The body of the loop of `process_find_node_response` over the answer: the candidates, and whether
-- one was new.
unfoldable pub learn_one :
    Bytes → NodeId → NodeId → Map Bytes NodeId × Bool → Map Bytes NodeId × Bool
unfolding insert get xor_distance
learn_one target local_id node (candidates, learned) =
    if same node local_id
    then (candidates, learned)
    else if contains_key (xor_distance node target) candidates
    then (candidates, learned)
    else (insert (xor_distance node target) node candidates, true)

unfoldable pub learn :
    Bytes → NodeId → List NodeId → Map Bytes NodeId × Bool → Map Bytes NodeId × Bool
unfolding learn_one
learn target local_id [] known = known
learn target local_id (node ∷ nodes) known =
    learn target local_id nodes (learn_one target local_id node known)

abbrev pub is_nil {ℓ} : {A : Type ℓ} → List A → Bool
is_nil [] = true
is_nil (x ∷ xs) = false

unfoldable pub process_find_node_response : NodeId → List NodeId → DhtQuery → DhtQuery × Bool
unfolding insert learn next_to_query
process_find_node_response from closer_nodes q =
    let (candidates, learned) = learn q.target q.local_id closer_nodes (q.candidates, false) in
    let asked = record q { queried = Set.add from q.queried; candidates = candidates } in
    (record asked { finished = if is_nil (next_to_query asked) then true else q.finished }, learned)

unfoldable pub set_found_value : DhtRecord → DhtQuery → DhtQuery
set_found_value r q = record q { found_value = some r; finished = true }

unfoldable pub take_found_value : DhtQuery → DhtQuery × Option DhtRecord
take_found_value q = (record q { found_value = none }, q.found_value)

unfoldable pub closest_results : DhtQuery → List NodeId
closest_results q = take q.k (values q.candidates)

unfoldable pub queried_count : DhtQuery → ℕ
queried_count q = Map.size q.queried
