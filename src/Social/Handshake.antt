-- ===== src/Social/Handshake.antt =====
-- How two sides come to be connected.
use ephemera_social.Base.{
  ℕ, ◌≤◌, ◌≡◌, refl, ap, ◌∙◌, sym, Option, none, some, true, false, if◌then◌else◌, same, list_ord,
  nat_ord, pair_ord, Bytes, arith, pair_eq, pair_self,
}
use ephemera_social.Map.{Map, get, insert, remove}
use ephemera_social.Map.Laws.{get-insert, get-remove}
use ephemera_social.Social.Graph.{
  Graph, Row, Pair, pending_outgoing, pending_incoming, active, request, accept, connect,
  set_connected, disconnect, receive_connection_request, is_blocked, message_len,
  max_connection_message_len,
}

abbrev connected : ℕ → Row → Row
connected now row = record row { status = active; updated_at = now }

get-connect-some :
    (now : ℕ) (x pair : Pair) (row : Row) (found : Option Row) (connections : Map Pair Row)
    → get pair connections ≡ found
    → get x connections ≡ some row
    → get x (connect now pair found connections)
      ≡ some (if same x pair then connected now row else row)
get-connect-some now x pair row none connections f h =
    let other : same x pair ≡ true → some row ≡ none =
      λ e. sym h ∙ ap (λ y. get y connections) (ground (arith, e, pair_eq x pair)) ∙ f in
    ground (arith, f, h, other)
get-connect-some now x pair row (some other) connections f h =
    ground (arith, f, h, get-insert x pair (connected now other) connections, pair_eq x pair)

get-set_connected-some :
    (now : ℕ) (x pair : Pair) (row : Row) (connections : Map Pair Row)
    → get x connections ≡ some row
    → get x (set_connected now pair connections)
      ≡ some (if same x pair then connected now row else row)
unfolding set_connected
get-set_connected-some now x pair row connections h =
    get-connect-some now x pair row (get pair connections) connections refl h

-- For a request whose message has at most 280 bytes, by a sender who has no row for the receiver and
-- whom the receiver has not blocked: the sender gets a pending row; `receive_connection_request` puts a
-- pending one in place of whatever row the receiver has; accepting it then makes the connection active,
-- with the sender as its initiator, and disconnecting after that leaves no connection in either
-- direction.
pub handshake :
    (sent received accepted : ℕ) (p q : Bytes) (message : Option Bytes) (a b : Graph)
    → message_len message ≤ max_connection_message_len
    → get (p, q) a.connections ≡ none
    → is_blocked q p b ≡ false
    → let asked = (receive_connection_request received q p message b).0 in
      let linked = (accept accepted q p asked).0 in
      (get (p, q) (request sent p q message a).0.connections
        ≡ some (record {
          status = pending_outgoing;
          created_at = sent;
          updated_at = sent;
          message = message;
          initiator = some p;
        }))
      × (get (q, p) asked.connections
          ≡ some (record {
            status = pending_incoming;
            created_at = received;
            updated_at = received;
            message = message;
            initiator = some p;
          }))
      × (get (q, p) linked.connections
          ≡ some (record {
            status = active;
            created_at = received;
            updated_at = accepted;
            message = message;
            initiator = some p;
          }))
      × (get (q, p) (disconnect q p linked).connections ≡ none)
      × (get (p, q) (disconnect q p linked).connections ≡ none)
unfolding request receive_connection_request accept disconnect is_blocked set_connected
handshake sent received accepted p q message a b l n f =
    let row : Row = record {
      status = pending_incoming;
      created_at = received;
      updated_at = received;
      message = message;
      initiator = some p;
    } in
    let outgoing : Row = record {
      status = pending_outgoing;
      created_at = sent;
      updated_at = sent;
      message = message;
      initiator = some p;
    } in
    let asked = insert (q, p) row b.connections in
    let first = set_connected accepted (q, p) asked in
    let linked = set_connected accepted (p, q) first in
    let self = pair_self {A = Bytes} {B = Bytes} (q, p) in
    let stored : get (q, p) asked ≡ some row =
      ground (arith, self, get-insert (q, p) (q, p) row b.connections) in
    let one : get (q, p) first ≡ some (connected accepted row) =
      ground (arith, self, get-set_connected-some accepted (q, p) (q, p) row asked stored) in
    let two : get (q, p) linked ≡ some (connected accepted row) =
      ground
        (arith, get-set_connected-some accepted (q, p) (p, q) (connected accepted row) first one) in
    (
      ground (
        arith,
        n,
        l,
        get-insert (p, q) (p, q) outgoing a.connections,
        pair_self {A = Bytes} {B = Bytes} (p, q),
      ),
      ground (arith, f, stored),
      ground (arith, f, two),
      ground (
        arith,
        f,
        get-remove (q, p) (p, q) (remove (q, p) linked),
        get-remove (q, p) (q, p) linked,
        self,
      ),
      ground (
        arith,
        f,
        get-remove (p, q) (p, q) (remove (q, p) linked),
        pair_self {A = Bytes} {B = Bytes} (p, q),
      ),
    )
