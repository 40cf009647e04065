-- ===== src/Social/Blocked.antt =====
-- What a block keeps out, and what each operation makes of a connection.
use ephemera_social.Base.{
  ℕ, ◌==◌, length, if◌then◌else◌, ◌≡◌, refl, List, [], ◌∷◌, Option, none, some, true, false, same,
  list_ord, nat_ord, pair_ord, Bytes, arith, All, pair_eq, pair_self,
}
use ephemera_social.Map.{Map, get, remove}
use ephemera_social.Map.Laws.{get-insert, get-remove}
use ephemera_social.Social.Graph.{
  Graph, Row, Pair, pending_outgoing, pending_incoming, active, request, request_new, accept,
  connect, set_connected, reject, disconnect, receive_connection_request, ingest_connection_request,
  block, unblock, mute, unmute, is_blocked,
}

-- The operations that change the graph, each at its instant.
pub data Event : Type 0 where
  requests receives blocks : ℕ → Bytes → Bytes → Option Bytes → Event
  accepts rejects disconnects unblocks unmutes : ℕ → Bytes → Bytes → Event
  mutes_until : ℕ → Bytes → Bytes → Option ℕ → Event

pub happen : Event → Graph → Graph
happen (requests now p q message) g = (request now p q message g).0
happen (receives now p q message) g = (receive_connection_request now p q message g).0
happen (blocks now p q reason) g = block now p q reason g
happen (accepts now p q) g = (accept now p q g).0
happen (rejects now p q) g = reject p q g
happen (disconnects now p q) g = disconnect p q g
happen (unblocks now p q) g = unblock p q g
happen (unmutes now p q) g = unmute p q g
happen (mutes_until now p q expires_at) g = mute now p q expires_at g

pub happen_all : List Event → Graph → Graph
happen_all [] g = g
happen_all (e ∷ es) g = happen_all es (happen e g)

-- The blocker neither lifts the block nor asks for a connection.
abbrev pub StaysBlocked : Bytes → Bytes → Event → Type 0
StaysBlocked p q (requests now a b message) = same {K = Pair} (p, q) (a, b) ≡ false
StaysBlocked p q (unblocks now a b) = same {K = Pair} (p, q) (a, b) ≡ false
StaysBlocked p q e = Unit

-- Blocked, and with no connection on the blocker's side.
abbrev pub ShutOut : Bytes → Bytes → Graph → Type 0
ShutOut p q g = (is_blocked p q g ≡ true) × (get (p, q) g.connections ≡ none)

get-connect :
    (now : ℕ) (x pair : Pair) (found : Option Row) (connections : Map Pair Row)
    → get pair connections ≡ found
    → get x connections ≡ none
    → get x (connect now pair found connections) ≡ none
get-connect now x pair none connections f h = h
get-connect now x pair (some row) connections f h = ground (
  arith,
  f,
  h,
  get-insert x pair (record row { status = active; updated_at = now }) connections,
  pair_eq x pair,
)

get-set_connected :
    (now : ℕ) (x pair : Pair) (connections : Map Pair Row)
    → get x connections ≡ none
    → get x (set_connected now pair connections) ≡ none
unfolding set_connected
get-set_connected now x pair connections h =
    get-connect now x pair (get pair connections) connections refl h

get-request_new :
    (now : ℕ) (x : Pair) (a b : Bytes) (message : Option Bytes) (found : Option Row) (g : Graph)
    → same x (a, b) ≡ false
    → get x (request_new now a b message found g).0.connections ≡ get x g.connections
get-request_new now x a b message (some row) g h = refl
get-request_new now x a b message none g h = ground (
  arith,
  h,
  get-insert x (a, b)
      (record {
        status = pending_outgoing;
        created_at = now;
        updated_at = now;
        message = message;
        initiator = some a;
      })
      g.connections,
)

blocks-request_new :
    (now : ℕ) (a b : Bytes) (message : Option Bytes) (found : Option Row) (g : Graph)
    → (request_new now a b message found g).0.blocks ≡ g.blocks
blocks-request_new now a b message (some row) g = refl
blocks-request_new now a b message none g = refl

happen-ShutOut :
    (p q : Bytes) (e : Event) (g : Graph)
    → StaysBlocked p q e
    → ShutOut p q g
    → ShutOut p q (happen e g)
unfolding happen is_blocked request accept reject disconnect receive_connection_request block
    unblock mute unmute
happen-ShutOut p q (requests now a b message) g s h =
    let found = get (a, b) g.connections in
    ground (
      arith,
      get-request_new now (p, q) a b message found g s,
      blocks-request_new now a b message found g,
      h,
    )
happen-ShutOut p q (receives now a b message) g s h = ground (
  arith,
  h,
  get-insert (p, q) (a, b)
      (record {
        status = pending_incoming;
        created_at = now;
        updated_at = now;
        message = message;
        initiator = some b;
      })
      g.connections,
  pair_eq (p, q) (a, b),
)
happen-ShutOut p q (blocks now a b reason) g s h = ground (
  arith,
  h,
  get-insert (p, q) (a, b) (record { created_at = now; reason = reason }) g.blocks,
  get-remove (p, q) (a, b) g.connections,
)
happen-ShutOut p q (accepts now a b) g s h = (
  h.0,
  get-set_connected now (p, q) (b, a) (set_connected now (a, b) g.connections)
      (get-set_connected now (p, q) (a, b) g.connections h.1),
)
happen-ShutOut p q (rejects now a b) g s h =
    ground (arith, h, get-remove (p, q) (a, b) g.connections)
happen-ShutOut p q (disconnects now a b) g s h = ground (
  arith,
  h,
  get-remove (p, q) (a, b) g.connections,
  get-remove (p, q) (b, a) (remove (a, b) g.connections),
)
happen-ShutOut p q (unblocks now a b) g s h =
    ground (arith, h, s, get-remove (p, q) (a, b) g.blocks)
happen-ShutOut p q (unmutes now a b) g s h = h
happen-ShutOut p q (mutes_until now a b expires_at) g s h = h

happen_all-ShutOut :
    (p q : Bytes) (es : List Event) (g : Graph)
    → All (StaysBlocked p q) es
    → ShutOut p q g
    → ShutOut p q (happen_all es g)
unfolding happen_all
happen_all-ShutOut p q [] g s h = h
happen_all-ShutOut p q (e ∷ es) g s h =
    happen_all-ShutOut p q es (happen e g) s.1 (happen-ShutOut p q e g s.0 h)

-- The row of a request that was ingested.
abbrev pub ingested : ℕ → Bytes → Option Bytes → Row
ingested later q message = record {
  status = pending_incoming;
  created_at = later;
  updated_at = later;
  message = message;
  initiator = some q;
}

get-ingest :
    (later : ℕ) (p q : Bytes) (message : Option Bytes) (g : Graph)
    → get (p, q) g.connections ≡ none
    → get (p, q) (ingest_connection_request later p q message g).connections
      ≡ (if length q == 32 then some (ingested later q message) else none)
unfolding ingest_connection_request
get-ingest later p q message g h = ground (
  arith,
  h,
  get-insert (p, q) (p, q) (ingested later q message) g.connections,
  pair_self {A = Bytes} {B = Bytes} (p, q),
)

-- After a block and any sequence of the services' operations on connections, blocks and mutes, in which
-- the blocker neither lifts the block nor asks for a connection, the target is blocked, the blocker's
-- side has no connection with them, and `receive_connection_request` discards a request from them
-- without a trace. The node's own ingest of requests does not look at blocks: from the same state it
-- enters a pending request of a target whose key has 32 bytes, and nothing for any other key.
pub block_shuts_out :
    (now later : ℕ) (p q : Bytes) (reason message : Option Bytes) (es : List Event) (g : Graph)
    → All (StaysBlocked p q) es
    → let after = happen_all es (block now p q reason g) in
      (is_blocked p q after ≡ true)
      × (get (p, q) after.connections ≡ none)
      × (receive_connection_request later p q message after ≡ (after, none))
      × (get (p, q) (ingest_connection_request later p q message after).connections
          ≡ (if length q == 32 then some (ingested later q message) else none))
unfolding block is_blocked receive_connection_request
block_shuts_out now later p q reason message es g s =
    let start : ShutOut p q (block now p q reason g) = ground (
      arith,
      get-insert (p, q) (p, q) (record { created_at = now; reason = reason }) g.blocks,
      get-remove (p, q) (p, q) g.connections,
      pair_self {A = Bytes} {B = Bytes} (p, q),
    ) in
    let kept = happen_all-ShutOut p q es (block now p q reason g) s start in
    (kept.0, kept.1, ground (arith, kept.0), get-ingest later p q message _ kept.1)
