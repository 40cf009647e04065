-- ===== src/Transport.antt =====
-- crates/ephemera-transport/src/manager.rs over the connections of connection.rs. Instants are
-- readings of the clock, in its smallest unit.
pub mod Pool
use ephemera_social.Base.{
  ℕ, ◌+◌, ◌-◌, List, [], ◌∷◌, Option, none, some, Bool, true, false, not, ◌&&◌, ltb, if◌then◌else◌,
  same, list_ord, nat_ord, keep, map, length, Bytes, Result, ok, err,
}
use ephemera_social.Map
use ephemera_social.Map.{Map, get, insert, remove, values}

pub data ConnectionState : Type 0 where
  connecting relayed direct disconnected : ConnectionState

pub record PeerAddr : Type 0 where
  pub node_id : Bytes
  pub addresses : List (List ℕ)

pub record PeerConnection : Type 0 where
  pub peer_id : Bytes
  pub addr : PeerAddr
  pub state : ConnectionState
  pub last_recv : ℕ
  pub last_send : ℕ
  pub outbound_open : Bool
  pub messages_sent : ℕ

-- `PeerConnection::new` keeps the sending half of the outbound channel and drops the receiving half:
-- the channel is closed.
unfoldable pub new_connection : (now : ℕ) → Bytes → PeerAddr → PeerConnection
new_connection now peer_id addr = record {
  peer_id = peer_id;
  addr = addr;
  state = connecting;
  last_recv = now;
  last_send = now;
  outbound_open = false;
  messages_sent = 0;
}

unfoldable pub is_active : PeerConnection → Bool
is_active c = elim c.state [ disconnected ↦ false | _ ↦ true ]

pub data TransportError : Type 0 where
  connection_failed connection_closed peer_not_connected : TransportError
  message_too_large connection_limit_reached : (current limit : ℕ) → TransportError

-- Sending over a channel whose receiver is gone is an error.
unfoldable pub send :
    (now : ℕ) → PeerConnection → PeerConnection × Result {0, 0} Unit TransportError
send now c =
    if c.outbound_open
    then (record c { last_send = now; messages_sent = c.messages_sent + 1 }, ok tt)
    else (c, err connection_closed)

pub record ConnectionManager : Type 0 where
  pub max_connections : ℕ
  pub idle_timeout : ℕ
  pub max_message_size : ℕ
  pub connections : Map Bytes PeerConnection
  pub local_id : Bytes

abbrev pub active_of : Map Bytes PeerConnection → ℕ
active_of m = length (keep (λ e. is_active e.1) m)

unfoldable pub connection_count : ConnectionManager → ℕ
unfolding keep is_active
connection_count s = active_of s.connections

unfoldable pub new :
    (max_connections idle_timeout max_message_size : ℕ) (local_id : Bytes) → ConnectionManager
new max_connections idle_timeout max_message_size local_id = record {
  max_connections = max_connections;
  idle_timeout = idle_timeout;
  max_message_size = max_message_size;
  connections = Map.empty;
  local_id = local_id;
}

unfoldable pub has_capacity : ConnectionManager → Bool
unfolding connection_count
has_capacity s = ltb (connection_count s) s.max_connections

abbrev pub active : Option PeerConnection → Bool
active none = false
active (some c) = is_active c

unfoldable pub is_connected : Bytes → ConnectionManager → Bool
unfolding get is_active
is_connected peer s = active (get peer s.connections)

unfoldable pub add_connection :
    (now : ℕ) → PeerAddr → ConnectionManager → ConnectionManager × Result {0, 0} Unit TransportError
unfolding is_connected has_capacity insert new_connection
add_connection now addr s =
    if same addr.node_id s.local_id
    then (s, err connection_failed)
    else if is_connected addr.node_id s
    then (s, ok tt)
    else if not (has_capacity s)
    then (s, err (connection_limit_reached (connection_count s) s.max_connections))
    else (
      record s {
        connections = insert addr.node_id (new_connection now addr.node_id addr) s.connections;
      },
      ok tt,
    )

unfoldable pub remove_connection : Bytes → ConnectionManager → ConnectionManager
unfolding remove
remove_connection peer s = record s { connections = remove peer s.connections }

unfoldable pub connected_peers : ConnectionManager → List Bytes
unfolding keep is_active
connected_peers s = map (λ e. e.0) (keep (λ e. is_active e.1) s.connections)

-- A failed send changes nothing.
abbrev pub sent :
    Bytes
    → PeerConnection × Result {0, 0} Unit TransportError
    → ConnectionManager
    → ConnectionManager × Result {0, 0} Unit TransportError
sent peer (c, ok tt) s = (record s { connections = insert peer c s.connections }, ok tt)
sent peer (c, err e) s = (s, err e)

abbrev pub send_on :
    (now : ℕ)
    → Bytes
    → Option PeerConnection
    → ConnectionManager
    → ConnectionManager × Result {0, 0} Unit TransportError
send_on now peer none s = (s, err peer_not_connected)
send_on now peer (some c) s =
    if is_active c then sent peer (send now c) s else (s, err peer_not_connected)

unfoldable pub send_to :
    (now : ℕ)
    → Bytes
    → (data_len : ℕ) → ConnectionManager
    → ConnectionManager × Result {0, 0} Unit TransportError
unfolding get insert send is_active
send_to now peer data_len s =
    if ltb s.max_message_size data_len
    then (s, err (message_too_large data_len s.max_message_size))
    else send_on now peer (get peer s.connections) s

unfoldable pub remove_all : List Bytes → ConnectionManager → ConnectionManager
unfolding remove_connection
remove_all [] s = s
remove_all (p ∷ ps) s = remove_all ps (remove_connection p s)

unfoldable pub cleanup_stale : (now : ℕ) → ConnectionManager → ConnectionManager
unfolding remove_all keep is_active
cleanup_stale now s =
    let stale =
      keep (λ e. is_active e.1 && ltb s.idle_timeout (now - e.1.last_recv)) s.connections in
    remove_all (map (λ e. e.0) stale) s
