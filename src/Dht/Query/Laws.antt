-- ===== src/Dht/Query/Laws.antt =====
-- The lookup's invariant and its progress.
use ephemera_social.Base.{
  ℕ, suc, zero, ◌≤◌, ◌<◌, ◌≡◌, refl, List, [], ◌∷◌, Bool, true, false, not, ◌&&◌, ◌||◌, same,
  list_ord, nat_ord, Bytes, keep, take, length, any, arith, All,
}
use ephemera_social.Map.{Map, values, contains_key}
use ephemera_social.Map.Laws.{get-insert, All-insert}
use ephemera_social.Map.Sorted.{IsSorted, insert-IsSorted}
use ephemera_social.Set
use ephemera_social.Set.{Set}
use ephemera_social.Types.NodeId.{NodeId, xor_distance}
use ephemera_social.Dht.Query.{
  DhtQuery, unqueried, next_to_query, learn, learn_one, is_nil, process_find_node_response,
}

-- A candidate stands at its distance from the target, and is not the local node.
abbrev pub IsCandidate : Bytes → NodeId → Bytes × NodeId → Type 0
IsCandidate target local_id e = (e.0 ≡ xor_distance e.1 target) × (same e.1 local_id ≡ false)

pub record IsValid (q : DhtQuery) : Type 0 where
  pub sorted : IsSorted q.candidates
  pub placed : All (IsCandidate q.target q.local_id) q.candidates

abbrev Good : Bytes → NodeId → Map Bytes NodeId × Bool → Type 0
Good target local_id known = IsSorted (known.0) × All (IsCandidate target local_id) (known.0)

learn_one-Good :
    (target : Bytes) (local_id node : NodeId) (known : Map Bytes NodeId × Bool)
    → Good target local_id known
    → Good target local_id (learn_one target local_id node known)
unfolding learn_one
learn_one-Good target local_id node (candidates, learned) g =
    let d = xor_distance node target in
    ground (
      arith,
      insert-IsSorted d node candidates g.0,
      λ (other : same node local_id ≡ false).
          All-insert (IsCandidate target local_id) d node candidates (refl, other) g.1,
    )

learn-Good :
    (target : Bytes) (local_id : NodeId) (nodes : List NodeId) (known : Map Bytes NodeId × Bool)
    → Good target local_id known
    → Good target local_id (learn target local_id nodes known)
unfolding learn
learn-Good target local_id [] known g = g
learn-Good target local_id (node ∷ nodes) known g =
    learn-Good target local_id nodes (learn_one target local_id node known)
      (learn_one-Good target local_id node known g)

-- Every answer keeps the lookup valid: its candidates are sorted by their distance to the target
-- and do not include the local node.
pub process-IsValid :
    (from : NodeId) (nodes : List NodeId) (q : DhtQuery)
    → IsValid q
    → IsValid (process_find_node_response from nodes q).0
unfolding process_find_node_response
process-IsValid from nodes q v =
    let kept = learn-Good q.target q.local_id nodes (q.candidates, false) (v.sorted, v.placed) in
    record { sorted = kept.0; placed = kept.1 }

-- Each node of an answer is the local one or a candidate already.
abbrev pub AllKnown : DhtQuery → List NodeId → Type 0
AllKnown q nodes =
    All (λ n. (same n q.local_id || contains_key (xor_distance n q.target) q.candidates) ≡ true)
      nodes

learn_one_known :
    (q : DhtQuery) (n : NodeId)
    → (same n q.local_id || contains_key (xor_distance n q.target) q.candidates) ≡ true
    → learn_one q.target q.local_id n (q.candidates, false) ≡ (q.candidates, false)
unfolding learn_one
learn_one_known q n h = ground arith

learn_known :
    (q : DhtQuery) (nodes : List NodeId)
    → AllKnown q nodes
    → learn q.target q.local_id nodes (q.candidates, false) ≡ (q.candidates, false)
unfolding learn
learn_known q [] h = refl
learn_known q (n ∷ nodes) h =
    let same_state : learn_one q.target q.local_id n (q.candidates, false) ≡ (q.candidates, false) =
      learn_one_known q n h.0 in
    rw same_state (learn_known q nodes h.1)

-- Dropping one more node from a list that has it makes the list shorter.
keep_fewer :
    (p p' : NodeId → Bool) (from : NodeId) (xs : List NodeId)
    → ((x : NodeId) → p' x ≡ (p x && not (same x from)))
    → (length (keep p' xs) ≤ length (keep p xs))
      × (any (λ x. same x from) (keep p xs) ≡ true → length (keep p' xs) < length (keep p xs))
unfolding keep any
keep_fewer p p' from [] h = (omega arith, λ e. absurd (ground arith))
keep_fewer p p' from (x ∷ xs) h =
    let rest = keep_fewer p p' from xs h in
    (ground (arith, h x, rest.0), λ e. ground (arith, h x, rest.0, rest.1))

is_nil-take {ℓ} : {A : Type ℓ} (n : ℕ) (xs : List A) → 0 < n → is_nil (take n xs) ≡ is_nil xs
is_nil-take zero xs h = elim h [ ]
is_nil-take (suc n) [] h = refl
is_nil-take (suc n) (x ∷ xs) h = refl

-- Where at least one node is asked at a time, an answer of a node that is to be asked, with no node
-- that is new, leaves fewer nodes to ask and
-- the candidates as they are; it is reported as no news; and the lookup is finished afterwards
-- exactly if it was before or no candidate is left to ask.
pub known_answer :
    (from : NodeId) (nodes : List NodeId) (q : DhtQuery)
    → 0 < q.alpha
    → any (λ x. same x from) (unqueried q.queried q.candidates) ≡ true
    → AllKnown q nodes
    → let q' = (process_find_node_response from nodes q).0 in
      (length (unqueried q'.queried q'.candidates) < length (unqueried q.queried q.candidates))
      × (q'.candidates ≡ q.candidates)
      × ((process_find_node_response from nodes q).1 ≡ false)
      × (q'.finished ≡ (is_nil (unqueried q'.queried q'.candidates) || q.finished))
unfolding process_find_node_response next_to_query
known_answer from nodes q a m h = rw (learn_known q nodes h) (
  (keep_fewer (λ id. not (Set.contains id q.queried))
        (λ id. not (Set.contains id (Set.add from q.queried))) from (values q.candidates)
        (λ x. ground (arith, get-insert x from tt q.queried))).1
      m,
  refl,
  refl,
  ground (arith, is_nil-take q.alpha (unqueried (Set.add from q.queried) q.candidates) a),
)
