-- ===== src/Gossip/Engine/Forward.antt =====
-- To whom a message is forwarded.
use ephemera_social.Base.{
  ℕ, ◌≡◌, refl, Bool, false, not, ◌&&◌, Option, none, some, List, [], ◌∷◌, same, list_ord, nat_ord,
  list_eq, list_flip, keep, any, arith,
}
use ephemera_social.Map.{get, keys}
use ephemera_social.Set
use ephemera_social.Set.{Set}
use ephemera_social.Types.NodeId.{NodeId}
use ephemera_social.Gossip.Topic.{GossipMessage}
use ephemera_social.Gossip.Peers.{TopicState, is_eager, is_lazy, is_seen}
use ephemera_social.Gossip.Dedup.{is_duplicate}
use ephemera_social.Gossip.Engine.{PlumTreeEngine, Forward, receive_topic, receive_message}
use ephemera_social.Gossip.Engine.Laws.{Incoming, receive}

-- The list holds the node exactly if the set does.
any-keys : (p : NodeId) (s : Set NodeId) → any (λ x. same x p) (keys s) ≡ Set.contains p s
unfolding any get
any-keys p [] = refl
any-keys p ((j, u) ∷ s) = ground (arith, any-keys p s, list_flip {A = ℕ} p j)

any-keep :
    (p : NodeId) (keeps : NodeId → Bool) (xs : List NodeId)
    → any (λ x. same x p) (keep keeps xs) ≡ (keeps p && any (λ x. same x p) xs)
unfolding any keep
any-keep p keeps [] = ground arith
any-keep p keeps (x ∷ xs) = ground (arith, any-keep p keeps xs, list_eq {A = ℕ} x p)

module _ {Sender : Type 0} (channel : ℕ → Sender) (try_send : GossipMessage → Sender → Sender) where
  -- Whether the node is among those that get the whole message, or its announcement.
  abbrev pub pushes : NodeId → Option Forward → Bool
  pushes p none = false
  pushes p (some f) = any (λ x. same x p) f.0

  abbrev pub announces : NodeId → Option Forward → Bool
  announces p none = false
  announces p (some f) = any (λ x. same x p) f.1

  -- A message of a subscribed topic is pushed to exactly the eager peers and announced to exactly
  -- the lazy peers, but for the node it came from and the local node, if its hash is neither a
  -- duplicate for the engine nor seen in the topic; otherwise to nobody.
  pub receive-forwards :
      (p : NodeId) (m : Incoming) (e : PlumTreeEngine Sender) (s : TopicState Sender)
      → get m.topic e.topics ≡ some s
      → (pushes p (receive channel try_send m e).1 ≡ (
          not (is_duplicate m.arrival m.content_hash e.dedup).1
          && (not (is_seen m.content_hash s)
              && ((not (same p m.source) && not (same p e.local_id)) && is_eager p s))))
        × (announces p (receive channel try_send m e).1 ≡ (
            not (is_duplicate m.arrival m.content_hash e.dedup).1
            && (not (is_seen m.content_hash s)
                && ((not (same p m.source) && not (same p e.local_id)) && is_lazy p s))))
  unfolding receive receive_message receive_topic
  receive-forwards p m e s h =
      let others = λ (q : NodeId). not (same q m.source) && not (same q e.local_id) in
      ground (
        arith,
        h,
        any-keep p others (keys s.eager_peers),
        any-keep p others (keys s.lazy_peers),
        any-keys p s.eager_peers,
        any-keys p s.lazy_peers,
      )
