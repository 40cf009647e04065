-- ===== src/Gossip/Engine/Laws.antt =====
-- The engine's state is valid: one state for each topic, and not too many.
use ephemera_social.Base.{
  ℕ, ◌≤◌, ◌≡◌, refl, Option, none, some, List, [], ◌∷◌, list_ord, nat_ord, Bytes, arith, inl, inr,
  Bool-cases,
}
use ephemera_social.Map
use ephemera_social.Map.{Map, get, insert, remove, keys, contains_key}
use ephemera_social.Map.Laws.{size-remove-le}
use ephemera_social.Map.Sorted.{IsSorted, insert-IsSorted, remove-IsSorted, size-insert}
use ephemera_social.Types.NodeId.{NodeId}
use ephemera_social.Gossip.Topic.{GossipTopic, GossipMessage}
use ephemera_social.Gossip.Peers.{TopicState, new_state}
use ephemera_social.Gossip.Dedup.{is_duplicate}
use ephemera_social.Gossip.Engine.{
  PlumTreeEngine, Forward, receive_topic, receive_message, receive_into, subscribe, unsubscribe,
}

-- An incoming message, with the instant of its arrival.
pub record Incoming : Type 0 where
  pub arrival : ℕ
  pub topic : GossipTopic
  pub content_hash : Bytes
  pub payload : Bytes
  pub source : NodeId

module _ {Sender : Type 0} (channel : ℕ → Sender) (try_send : GossipMessage → Sender → Sender) where
  unfoldable pub receive : Incoming → PlumTreeEngine Sender → PlumTreeEngine Sender × Option Forward
  receive m e =
      receive_message channel try_send m.arrival m.topic m.content_hash m.payload m.source e

  unfoldable pub receive_all : List Incoming → PlumTreeEngine Sender → PlumTreeEngine Sender
  receive_all [] e = e
  receive_all (m ∷ ms) e = receive_all ms (receive m e).0

  pub record IsValid (e : PlumTreeEngine Sender) : Type 0 where
    pub sorted : IsSorted e.topics
    pub bounded : Map.size e.topics ≤ e.max_subscriptions

  receive_into-IsValid :
      (local_id : NodeId) (msg : GossipMessage) (source : NodeId)
      (found : Option (TopicState Sender)) (topics : Map GossipTopic (TopicState Sender))
      → get msg.topic topics ≡ found
      → IsSorted topics
      → IsSorted (receive_into channel try_send local_id msg source found topics).0
        × (Map.size (receive_into channel try_send local_id msg source found topics).0
            ≡ Map.size topics)
  receive_into-IsValid local_id msg source none topics e s = (s, refl)
  receive_into-IsValid local_id msg source (some t) topics e s =
      let t' = (receive_topic channel try_send local_id msg source t).0 in
      (insert-IsSorted msg.topic t' topics s, ground (arith, e, size-insert msg.topic t' topics s))

  message : Incoming → GossipMessage
  message m = record {
    topic = m.topic;
    payload = m.payload;
    content_hash = m.content_hash;
    source_node = m.source;
  }

  receive-IsValid : (m : Incoming) (e : PlumTreeEngine Sender) → IsValid e → IsValid (receive m e).0
  unfolding receive receive_message message
  receive-IsValid m e v =
      let into =
        receive_into-IsValid e.local_id (message m) m.source (get m.topic e.topics) e.topics refl
          v.sorted in
      elim (Bool-cases (is_duplicate m.arrival m.content_hash e.dedup).1) [
        | inl d ↦ rw d (record { sorted = v.sorted; bounded = v.bounded })
        | inr d ↦ rw d (record { sorted = into.0; bounded = ground (arith, into.1, v.bounded) })
      ]

  -- Each operation keeps one state for each topic and at most the configured number of topics.
  pub engine-IsValid :
      (topic : GossipTopic) (buffer : ℕ) (m : Incoming) (e : PlumTreeEngine Sender)
      → IsValid e
      → IsValid (subscribe channel try_send topic buffer e).0
        × IsValid (unsubscribe topic e).0
        × IsValid (receive m e).0
  unfolding subscribe unsubscribe
  engine-IsValid topic buffer m e v = (
    (let s : TopicState Sender = record (new_state topic) {
      subscriber_tx = some (channel buffer);
    } in
        ground (
          arith,
          insert-IsSorted topic s e.topics v.sorted,
          size-insert topic s e.topics v.sorted,
          v.sorted,
          v.bounded,
        )),
    ground (
      arith,
      v.sorted,
      v.bounded,
      remove-IsSorted topic e.topics v.sorted,
      size-remove-le topic e.topics,
    ),
    receive-IsValid m e v,
  )
