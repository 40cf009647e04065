-- ===== src/Tests/Gossip.antt =====
-- crates/ephemera-gossip at small inputs. A subscriber's channel is the list of what was sent.
use ephemera_social.Base.{
  ℕ, ◌≡◌, refl, none, some, List, [], ◌∷◌, true, false, not, ◌&&◌, ◌||◌, arith, same, Bytes,
  list_ord, nat_ord,
}
use ephemera_social.Map.{get}
use ephemera_social.Gossip.Topic.{GossipMessage}
use ephemera_social.Gossip.Dedup
use ephemera_social.Gossip.Dedup.{
  MessageDedup, is_duplicate, mark_seen, run, check, mark, is_duplicate_marked,
  is_duplicate_forgets,
}
use ephemera_social.Gossip.Peers.{
  TopicState, add_eager_peer, prune_to_lazy, graft_to_eager, is_eager, is_lazy, moves_disjoint,
  is_seen,
}
use ephemera_social.Gossip.Engine.{PlumTreeEngine, subscribe, unsubscribe}
use ephemera_social.Gossip.Engine.Laws.{Incoming, IsValid, receive, receive_all, engine-IsValid}
use ephemera_social.Gossip.Engine.Once.{delivered_once}
use ephemera_social.Gossip.Engine.Forward.{receive-forwards, pushes, announces}

abbrev Inbox : Type 0
Inbox = List GossipMessage

open_channel : ℕ → Inbox
open_channel n = []

send : GossipMessage → Inbox → Inbox
send m inbox = m ∷ inbox

abbrev memory : MessageDedup
memory = record { current = []; previous = []; epoch_start = 100; epoch_duration = 300 }

is_duplicate_marked_example :
    ((is_duplicate 420
        (1 ∷ [])
        (run (check 410 (2 ∷ []) ∷ mark (2 ∷ []) ∷ []) (mark_seen (1 ∷ []) memory))).1
      ≡ true)
    × ((Dedup.new 420).epoch_duration ≡ 300)
is_duplicate_marked_example =
    is_duplicate_marked 150 420 (1 ∷ []) (check 410 (2 ∷ []) ∷ mark (2 ∷ []) ∷ []) memory
      (omega arith, omega arith, tt) (omega arith) (omega arith)

is_duplicate_forgets_example :
    (is_duplicate 700 (1 ∷ []) (is_duplicate 400 (2 ∷ []) memory).0).1 ≡ false
is_duplicate_forgets_example =
    is_duplicate_forgets 400 700 (1 ∷ []) (2 ∷ []) memory (omega arith) (omega arith)

-- Node 1 is eager, node 2 lazy.
abbrev news : TopicState Inbox
news = record {
  topic = 9 ∷ [];
  eager_peers = (1 ∷ [], tt) ∷ [];
  lazy_peers = (2 ∷ [], tt) ∷ [];
  seen = [];
  subscriber_tx = some [];
}

moves_disjoint_example :
    ((is_eager (2 ∷ []) (add_eager_peer (2 ∷ []) news)
        && is_lazy (2 ∷ []) (add_eager_peer (2 ∷ []) news))
      ≡ false)
    × ((is_eager (2 ∷ []) (prune_to_lazy (2 ∷ []) news)
          && is_lazy (2 ∷ []) (prune_to_lazy (2 ∷ []) news))
        ≡ false)
    × ((is_eager (2 ∷ []) (graft_to_eager (2 ∷ []) news)
          && is_lazy (2 ∷ []) (graft_to_eager (2 ∷ []) news))
        ≡ false)
    × (is_eager (2 ∷ []) (add_eager_peer (2 ∷ []) news)
        ≡ (same {K = Bytes} (2 ∷ []) (2 ∷ []) || is_eager (2 ∷ []) news))
    × (is_eager (2 ∷ []) (prune_to_lazy (2 ∷ []) news)
        ≡ (not (same {K = Bytes} (2 ∷ []) (2 ∷ [])) && is_eager (2 ∷ []) news))
    × (is_lazy (2 ∷ []) (graft_to_eager (2 ∷ []) news)
        ≡ (not (same {K = Bytes} (2 ∷ []) (2 ∷ [])) && is_lazy (2 ∷ []) news))
    × ((is_eager (2 ∷ []) (prune_to_lazy (2 ∷ []) news)
          || is_lazy (2 ∷ []) (prune_to_lazy (2 ∷ []) news))
        ≡ (is_eager (2 ∷ []) news || is_lazy (2 ∷ []) news))
    × ((is_eager (2 ∷ []) (graft_to_eager (2 ∷ []) news)
          || is_lazy (2 ∷ []) (graft_to_eager (2 ∷ []) news))
        ≡ (is_eager (2 ∷ []) news || is_lazy (2 ∷ []) news))
unfolding get
moves_disjoint_example = moves_disjoint (2 ∷ []) (2 ∷ []) news refl

abbrev engine : PlumTreeEngine Inbox
engine = record {
  local_id = 0 ∷ [];
  topics = (9 ∷ [], news) ∷ [];
  max_subscriptions = 3;
  dedup = memory;
}

abbrev incoming : ℕ → Incoming
incoming now = record {
  arrival = now;
  topic = 9 ∷ [];
  content_hash = 5 ∷ [];
  payload = 1 ∷ 2 ∷ [];
  source = 2 ∷ [];
}

engine-IsValid_example :
    IsValid open_channel send (subscribe open_channel send (8 ∷ []) 16 engine).0
    × IsValid open_channel send (unsubscribe (8 ∷ []) engine).0
    × IsValid open_channel send (receive open_channel send (incoming 150) engine).0
engine-IsValid_example =
    engine-IsValid open_channel send (8 ∷ []) 16 (incoming 150) engine
      (record { sorted = (tt, tt); bounded = omega arith })

delivered_once_example :
    ((receive open_channel send
        (incoming 420)
        (receive_all open_channel send [] (receive open_channel send (incoming 150) engine).0)).1
      ≡ none)
    × ((receive open_channel send (incoming 420) (
          receive_all open_channel send []
            (receive open_channel send (incoming 150) engine).0)).0.topics
        ≡ (receive_all open_channel send []
            (receive open_channel send (incoming 150) engine).0).topics)
unfolding is_duplicate Dedup.maybe_rotate get
delivered_once_example =
    delivered_once open_channel send (incoming 150) (incoming 420) [] engine refl refl
      ((omega arith, omega arith), tt)

receive-forwards_example :
    (pushes open_channel send (1 ∷ []) (receive open_channel send (incoming 150) engine).1 ≡ (
      not (is_duplicate 150 (5 ∷ []) memory).1
      && (not (is_seen (5 ∷ []) news)
          && ((not (same {K = Bytes} (1 ∷ []) (2 ∷ [])) && not (same {K = Bytes} (1 ∷ []) (0 ∷ [])))
              && is_eager (1 ∷ []) news))))
    × (announces open_channel send (1 ∷ []) (receive open_channel send (incoming 150) engine).1 ≡ (
        not (is_duplicate 150 (5 ∷ []) memory).1
        && (not (is_seen (5 ∷ []) news)
            && ((not (same {K = Bytes} (1 ∷ []) (2 ∷ []))
                  && not (same {K = Bytes} (1 ∷ []) (0 ∷ [])))
                && is_lazy (1 ∷ []) news))))
unfolding get
receive-forwards_example =
    receive-forwards open_channel send (1 ∷ []) (incoming 150) engine news refl
