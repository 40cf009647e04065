-- ===== src/Gossip/Engine.antt =====
-- `PlumTreeEngine` of crates/ephemera-gossip/src/plumtree.rs: subscriptions, and what happens to an
-- incoming message. The channels of subscribers come from tokio: a new channel and the attempt to
-- send are parameters. Instants are seconds.
pub mod Laws
pub mod Once
pub mod Forward
use ephemera_social.Base.{
  ℕ, Bool, true, false, not, ◌&&◌, Option, none, some, List, [], ◌∷◌, if◌then◌else◌, same, list_ord,
  nat_ord, Bytes, keep, leb, is_some,
}
use ephemera_social.Map
use ephemera_social.Map.{Map, get, insert, remove, keys}
use ephemera_social.Set
use ephemera_social.Set.{Set}
use ephemera_social.Types.NodeId.{NodeId}
use ephemera_social.Gossip.Topic.{
  GossipTopic, GossipMessage, GossipError, subscription_limit_reached, not_subscribed,
}
use ephemera_social.Gossip.Peers.{TopicState, new_state, is_seen, mark_seen}
use ephemera_social.Gossip.Dedup
use ephemera_social.Gossip.Dedup.{MessageDedup, is_duplicate}

pub record PlumTreeEngine (Sender : Type 0) : Type 0 where
  pub local_id : NodeId
  pub topics : Map GossipTopic (TopicState Sender)
  pub max_subscriptions : ℕ
  pub dedup : MessageDedup

pub data SubscribeResult : Type 0 where
  ok : SubscribeResult
  err : GossipError → SubscribeResult

-- The peers to push to and the peers to announce to.
abbrev pub Forward : Type 0
Forward = List NodeId × List NodeId

module _ {Sender : Type 0} where
  unfoldable pub new : ℕ → NodeId → ℕ → PlumTreeEngine Sender
  unfolding Dedup.new
  new now local_id max_subscriptions = record {
    local_id = local_id;
    topics = Map.empty;
    max_subscriptions = max_subscriptions;
    dedup = Dedup.new now;
  }

  unfoldable pub unsubscribe :
      GossipTopic → PlumTreeEngine Sender → PlumTreeEngine Sender × SubscribeResult
  unfolding get remove
  unsubscribe topic e =
      if is_some (get topic e.topics)
      then (record e { topics = remove topic e.topics }, ok)
      else (e, err (not_subscribed topic))

  unfoldable pub subscriptions : PlumTreeEngine Sender → List GossipTopic
  subscriptions e = keys e.topics

module _ {Sender : Type 0} (channel : ℕ → Sender) (try_send : GossipMessage → Sender → Sender) where
  unfoldable pub subscribe :
      GossipTopic → ℕ → PlumTreeEngine Sender → PlumTreeEngine Sender × SubscribeResult
  unfolding insert new_state
  subscribe topic buffer_size e =
      if leb e.max_subscriptions (Map.size e.topics)
      then (e, err (subscription_limit_reached (Map.size e.topics) e.max_subscriptions))
      else (
        record e {
          topics =
              insert topic (record (new_state topic) { subscriber_tx = some (channel buffer_size) })
                e.topics;
        },
        ok,
      )

  -- The local delivery: an attempt that may fail.
  abbrev pub deliver : GossipMessage → Option Sender → Option Sender
  deliver msg none = none
  deliver msg (some tx) = some (try_send msg tx)

  -- The peers of a set but for the source and the local node.
  abbrev pub exclude : NodeId → NodeId → Set NodeId → List NodeId
  exclude source local_id peers =
      keep (λ p. not (same p source) && not (same p local_id)) (Set.elements peers)

  -- The part of `receive_message` on the topic's state.
  unfoldable pub receive_topic :
      NodeId → GossipMessage → NodeId → TopicState Sender → TopicState Sender × Option Forward
  unfolding is_seen mark_seen keep
  receive_topic local_id msg source s = if is_seen msg.content_hash s then (s, none) else (
    record (mark_seen msg.content_hash s) { subscriber_tx = deliver msg s.subscriber_tx },
    some (exclude source local_id s.eager_peers, exclude source local_id s.lazy_peers),
  )

  -- `get_mut(topic)?` and what follows it.
  abbrev pub receive_into :
      NodeId
      → GossipMessage
      → NodeId
      → Option (TopicState Sender)
      → Map GossipTopic (TopicState Sender)
      → Map GossipTopic (TopicState Sender) × Option Forward
  receive_into local_id msg source none topics = (topics, none)
  receive_into local_id msg source (some s) topics = (
    insert msg.topic (receive_topic local_id msg source s).0 topics,
    (receive_topic local_id msg source s).1,
  )

  unfoldable pub receive_message :
      ℕ
      → GossipTopic
      → Bytes
      → Bytes
      → NodeId
      → PlumTreeEngine Sender
      → PlumTreeEngine Sender × Option Forward
  receive_message now topic content_hash payload source e =
      let seen = is_duplicate now content_hash e.dedup in
      let msg : GossipMessage = record {
        topic = topic;
        payload = payload;
        content_hash = content_hash;
        source_node = source;
      } in
      let into = receive_into e.local_id msg source (get topic e.topics) e.topics in
      if seen.1
      then (record e { dedup = seen.0 }, none)
      else (record e { topics = into.0; dedup = Dedup.mark_seen content_hash seen.0 }, into.1)
