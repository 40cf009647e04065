-- ===== src/Social/Graph.antt =====
-- The tables of connections, blocks and mutes, with crates/ephemera-social/src/connection.rs,
-- block.rs, store/connection.rs and store/block.rs. A table is a map from its primary key, the pair
-- of the two public keys. The statements succeed; the errors of the database are left out. A status
-- is stored as a string and read back as the same status; it stands for itself here.
use ephemera_social.Base.{
  ℕ, Option, none, some, Bool, true, false, length, ltb, ◌==◌, if◌then◌else◌, list_ord, nat_ord,
  pair_ord, Bytes,
}
use ephemera_social.Map.{Map, get, insert, remove, contains_key}

pub data ConnectionStatus : Type 0 where
  pending_outgoing pending_incoming active blocked : ConnectionStatus

pub record Connection : Type 0 where
  pub initiator : Bytes
  pub responder : Bytes
  pub status : ConnectionStatus
  pub created_at : ℕ
  pub updated_at : ℕ
  pub message : Option Bytes

pub data ConnectionError : Type 0 where
  already_exists : ConnectionStatus → ConnectionError
  message_too_long : ℕ → ConnectionError

-- A row of `connections` but for its primary key.
pub record Row : Type 0 where
  pub status : ConnectionStatus
  pub created_at : ℕ
  pub updated_at : ℕ
  pub message : Option Bytes
  pub initiator : Option Bytes

pub record Block : Type 0 where
  pub created_at : ℕ
  pub reason : Option Bytes

pub record Mute : Type 0 where
  pub created_at : ℕ
  pub expires_at : Option ℕ

abbrev pub Pair : Type 0
Pair = Bytes × Bytes

-- The part of the database that the services use.
pub record Graph : Type 0 where
  pub connections : Map Pair Row
  pub blocks : Map Pair Block
  pub mutes : Map Pair Mute

abbrev pub max_connection_message_len : ℕ
max_connection_message_len = 280

pub data RequestResult : Type 0 where
  ok : Connection → RequestResult
  err : ConnectionError → RequestResult

-- The bytes of the message, and zero where there is none.
abbrev pub message_len : Option Bytes → ℕ
message_len none = 0
message_len (some msg) = length msg

-- The part of `request` after the check of the message.
abbrev pub request_new :
    ℕ → Bytes → Bytes → Option Bytes → Option Row → Graph → Graph × RequestResult
request_new now source target message (some row) g = (g, err (already_exists row.status))
request_new now source target message none g = (
  record g {
    connections =
        insert (source, target)
          (record {
            status = pending_outgoing;
            created_at = now;
            updated_at = now;
            message = message;
            initiator = some source;
          })
          g.connections;
  },
  ok (record {
    initiator = source;
    responder = target;
    status = pending_outgoing;
    created_at = now;
    updated_at = now;
    message = message;
  }),
)

unfoldable pub request : ℕ → Bytes → Bytes → Option Bytes → Graph → Graph × RequestResult
unfolding insert get
request now source target message g =
    if ltb max_connection_message_len (message_len message)
    then (g, err (message_too_long (message_len message)))
    else request_new now source target message (get (source, target) g.connections) g

-- `UPDATE connections SET status = 'connected', updated_at`
abbrev pub connect : ℕ → Pair → Option Row → Map Pair Row → Map Pair Row
connect now pair none connections = connections
connect now pair (some row) connections =
    insert pair (record row { status = active; updated_at = now }) connections

unfoldable pub set_connected : ℕ → Pair → Map Pair Row → Map Pair Row
unfolding insert get
set_connected now pair connections = connect now pair (get pair connections) connections

unfoldable pub accept : ℕ → Bytes → Bytes → Graph → Graph × Connection
unfolding set_connected
accept now own remote g = (
  record g {
    connections = set_connected now (remote, own) (set_connected now (own, remote) g.connections);
  },
  record {
    initiator = remote;
    responder = own;
    status = active;
    created_at = now;
    updated_at = now;
    message = none;
  },
)

unfoldable pub reject : Bytes → Bytes → Graph → Graph
unfolding remove
reject own remote g = record g { connections = remove (own, remote) g.connections }

-- `remove`
unfoldable pub disconnect : Bytes → Bytes → Graph → Graph
unfolding remove
disconnect own remote g = record g {
  connections = remove (remote, own) (remove (own, remote) g.connections);
}

-- `None`, where the sender is blocked, leaves everything as it is.
unfoldable pub receive_connection_request :
    ℕ → Bytes → Bytes → Option Bytes → Graph → Graph × Option Connection
unfolding insert get
receive_connection_request now receiver sender message g =
    if contains_key (receiver, sender) g.blocks then (g, none) else (
      record g {
        connections =
            insert (receiver, sender)
              (record {
                status = pending_incoming;
                created_at = now;
                updated_at = now;
                message = message;
                initiator = some sender;
              })
              g.connections;
      },
      some (record {
        initiator = sender;
        responder = receiver;
        status = pending_incoming;
        created_at = now;
        updated_at = now;
        message = message;
      }),
    )

unfoldable pub block : ℕ → Bytes → Bytes → Option Bytes → Graph → Graph
unfolding insert remove
block now blocker target reason g = record g {
  blocks = insert (blocker, target) (record { created_at = now; reason = reason }) g.blocks;
  connections = remove (blocker, target) g.connections;
}

unfoldable pub unblock : Bytes → Bytes → Graph → Graph
unfolding remove
unblock blocker target g = record g { blocks = remove (blocker, target) g.blocks }

unfoldable pub mute : ℕ → Bytes → Bytes → Option ℕ → Graph → Graph
unfolding insert
mute now muter muted expires_at g = record g {
  mutes = insert (muter, muted) (record { created_at = now; expires_at = expires_at }) g.mutes;
}

unfoldable pub unmute : Bytes → Bytes → Graph → Graph
unfolding remove
unmute muter muted g = record g { mutes = remove (muter, muted) g.mutes }

unfoldable pub is_blocked : Bytes → Bytes → Graph → Bool
unfolding get
is_blocked checker target g = contains_key (checker, target) g.blocks

-- The `WHERE` clause of `is_muted` on the row of the pair.
abbrev pub mutes_at : ℕ → Option Mute → Bool
mutes_at now none = false
mutes_at now (some m) = elim m.expires_at [ none ↦ true | some t ↦ ltb now t ]

unfoldable pub is_muted : ℕ → Bytes → Bytes → Graph → Bool
unfolding get
is_muted now checker target g = mutes_at now (get (checker, target) g.mutes)

-- `Mute::is_expired_at`
unfoldable pub is_expired_at : ℕ → Mute → Bool
is_expired_at now m = elim m.expires_at [ none ↦ false | some t ↦ ltb t now ]

-- What `message_ingest_loop` and `retrieve_dht_dead_drops` of crates/ephemera-node make of a payload
-- of the type `connection_request` that names `initiator`: `INSERT OR IGNORE`, without `block`.
unfoldable pub ingest_connection_request : ℕ → Bytes → Bytes → Option Bytes → Graph → Graph
unfolding insert get
ingest_connection_request created_at local initiator message g =
    if length initiator == 32
    then (if contains_key (local, initiator) g.connections then g else record g {
      connections =
          insert (local, initiator)
            (record {
              status = pending_incoming;
              created_at = created_at;
              updated_at = created_at;
              message = message;
              initiator = some initiator;
            })
            g.connections;
    })
    else g
