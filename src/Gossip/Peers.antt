-- ===== src/Gossip/Peers.antt =====
-- `TopicState` of crates/ephemera-gossip/src/plumtree.rs: the peers of one topic, those that get
-- whole messages and those that get announcements, with the hashes that were seen. The sender of
-- the subscriber's channel comes from tokio and is a parameter.
use ephemera_social.Base.{
  ℕ, ◌+◌, ◌≡◌, Bool, false, not, ◌||◌, ◌&&◌, Option, none, if◌then◌else◌, same, list_ord, nat_ord,
  list_eq, Bytes, arith,
}
use ephemera_social.Map
use ephemera_social.Map.{get, insert, remove}
use ephemera_social.Map.Laws.{get-insert, get-remove}
use ephemera_social.Set
use ephemera_social.Set.{Set}
use ephemera_social.Types.NodeId.{NodeId}
use ephemera_social.Gossip.Topic.{GossipTopic}

pub record TopicState (Sender : Type 0) : Type 0 where
  pub topic : GossipTopic
  pub eager_peers : Set NodeId
  pub lazy_peers : Set NodeId
  pub seen : Set Bytes
  pub subscriber_tx : Option Sender

module _ {Sender : Type 0} where
  unfoldable pub new_state : GossipTopic → TopicState Sender
  new_state topic = record {
    topic = topic;
    eager_peers = Set.empty;
    lazy_peers = Set.empty;
    seen = Set.empty;
    subscriber_tx = none;
  }

  unfoldable pub is_seen : Bytes → TopicState Sender → Bool
  unfolding get
  is_seen hash s = Set.contains hash s.seen

  unfoldable pub mark_seen : Bytes → TopicState Sender → TopicState Sender
  unfolding insert
  mark_seen hash s = record s { seen = Set.add hash s.seen }

  unfoldable pub add_eager_peer : NodeId → TopicState Sender → TopicState Sender
  unfolding insert remove
  add_eager_peer peer s = record s {
    lazy_peers = remove peer s.lazy_peers;
    eager_peers = Set.add peer s.eager_peers;
  }

  unfoldable pub prune_to_lazy : NodeId → TopicState Sender → TopicState Sender
  unfolding insert remove get
  prune_to_lazy peer s =
      if Set.contains peer s.eager_peers
      then record s {
        eager_peers = remove peer s.eager_peers;
        lazy_peers = Set.add peer s.lazy_peers;
      }
      else s

  unfoldable pub graft_to_eager : NodeId → TopicState Sender → TopicState Sender
  unfolding insert remove get
  graft_to_eager peer s =
      if Set.contains peer s.lazy_peers
      then record s {
        lazy_peers = remove peer s.lazy_peers;
        eager_peers = Set.add peer s.eager_peers;
      }
      else s

  unfoldable pub peer_count : TopicState Sender → ℕ
  peer_count s = Map.size s.eager_peers + Map.size s.lazy_peers

  -- What a peer is to the topic.
  abbrev pub is_eager : NodeId → TopicState Sender → Bool
  is_eager p s = Set.contains p s.eager_peers

  abbrev pub is_lazy : NodeId → TopicState Sender → Bool
  is_lazy p s = Set.contains p s.lazy_peers

  -- At a peer that is not both eager and lazy before, the three moves leave it not both: an added
  -- peer is eager and not lazy; a pruned eager peer is lazy and not eager, and a grafted lazy peer
  -- the other way round; pruning and grafting keep whether it is a peer at all; and every other
  -- peer is what it was.
  pub moves_disjoint :
      (p q : NodeId) (s : TopicState Sender)
      → (is_eager q s && is_lazy q s) ≡ false
      → ((is_eager q (add_eager_peer p s) && is_lazy q (add_eager_peer p s)) ≡ false)
        × ((is_eager q (prune_to_lazy p s) && is_lazy q (prune_to_lazy p s)) ≡ false)
        × ((is_eager q (graft_to_eager p s) && is_lazy q (graft_to_eager p s)) ≡ false)
        × (is_eager q (add_eager_peer p s) ≡ (same q p || is_eager q s))
        × (is_eager q (prune_to_lazy p s) ≡ (not (same q p) && is_eager q s))
        × (is_lazy q (graft_to_eager p s) ≡ (not (same q p) && is_lazy q s))
        × ((is_eager q (prune_to_lazy p s) || is_lazy q (prune_to_lazy p s))
            ≡ (is_eager q s || is_lazy q s))
        × ((is_eager q (graft_to_eager p s) || is_lazy q (graft_to_eager p s))
            ≡ (is_eager q s || is_lazy q s))
  unfolding add_eager_peer prune_to_lazy graft_to_eager
  moves_disjoint p q s h = ground (
    arith,
    get-insert q p tt s.eager_peers,
    get-insert q p tt s.lazy_peers,
    get-remove q p s.eager_peers,
    get-remove q p s.lazy_peers,
    list_eq {A = ℕ} q p,
  )
