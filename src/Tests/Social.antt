-- ===== src/Tests/Social.antt =====
-- crates/ephemera-social at small inputs. Keys are one byte long.
use ephemera_social.Base.{
  Bytes, replicate, length, ◌==◌, if◌then◌else◌, ◌≡◌, refl, none, some, List, [], ◌∷◌, true, arith,
  list_ord, nat_ord, pair_ord,
}
use ephemera_social.Map.{get}
use ephemera_social.Social.Graph.{
  Graph, pending_outgoing, pending_incoming, active, request, accept, disconnect,
  receive_connection_request, ingest_connection_request, block, is_blocked, mute, is_muted,
}
use ephemera_social.Social.Blocked.{Event, receives, accepts, happen_all, block_shuts_out, ingested}
use ephemera_social.Social.Handshake.{handshake}

abbrev nobody : Graph
nobody = record { connections = []; blocks = []; mutes = [] }

muted_until : is_muted 50 (1 ∷ []) (2 ∷ []) (mute 10 (1 ∷ []) (2 ∷ []) (some 60) nobody) ≡ true
unfolding is_muted mute
muted_until = refl

abbrev target : Bytes
target = replicate 32 2

abbrev later_events : List Event
later_events = receives 20 (1 ∷ []) target none ∷ accepts 30 (1 ∷ []) target ∷ []

block_shuts_out_example :
    let after = happen_all later_events (block 10 (1 ∷ []) target none nobody) in
    (is_blocked (1 ∷ []) target after ≡ true)
    × (get (1 ∷ [], target) after.connections ≡ none)
    × (receive_connection_request 40 (1 ∷ []) target none after ≡ (after, none))
    × (get (1 ∷ [], target) (ingest_connection_request 40 (1 ∷ []) target none after).connections
        ≡ (if length target == 32 then some (ingested 40 target none) else none))
block_shuts_out_example =
    block_shuts_out 10 40 (1 ∷ []) target none none later_events nobody (tt, (tt, tt))

handshake_example :
    (get (1 ∷ [], 2 ∷ []) (request 10 (1 ∷ []) (2 ∷ []) none nobody).0.connections
      ≡ some (record {
        status = pending_outgoing;
        created_at = 10;
        updated_at = 10;
        message = none;
        initiator = some (1 ∷ []);
      }))
    × (get
          (2 ∷ [], 1 ∷ [])
          (receive_connection_request 12 (2 ∷ []) (1 ∷ []) none nobody).0.connections
        ≡ some (record {
          status = pending_incoming;
          created_at = 12;
          updated_at = 12;
          message = none;
          initiator = some (1 ∷ []);
        }))
    × (get
          (2 ∷ [], 1 ∷ [])
          (accept 15
            (2 ∷ [])
            (1 ∷ [])
            (receive_connection_request 12 (2 ∷ []) (1 ∷ []) none nobody).0).0.connections
        ≡ some (record {
          status = active;
          created_at = 12;
          updated_at = 15;
          message = none;
          initiator = some (1 ∷ []);
        }))
    × (get
          (2 ∷ [], 1 ∷ [])
          (disconnect
            (2 ∷ [])
            (1 ∷ [])
            (accept 15
              (2 ∷ [])
              (1 ∷ [])
              (receive_connection_request 12 (2 ∷ []) (1 ∷ []) none nobody).0).0).connections
        ≡ none)
    × (get
          (1 ∷ [], 2 ∷ [])
          (disconnect
            (2 ∷ [])
            (1 ∷ [])
            (accept 15
              (2 ∷ [])
              (1 ∷ [])
              (receive_connection_request 12 (2 ∷ []) (1 ∷ []) none nobody).0).0).connections
        ≡ none)
unfolding get is_blocked
handshake_example = handshake 10 12 15 (1 ∷ []) (2 ∷ []) none nobody nobody (omega arith) refl refl
