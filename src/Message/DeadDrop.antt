-- ===== src/Message/DeadDrop.antt =====
-- `DeadDropService` of crates/ephemera-message/src/dead_drop.rs: sealed messages that wait for an
-- offline recipient. The table `dead_drops` has the primary key `message_id`; it is a map from it.
-- The hash of the recipient's key and the hash of a sealed message come from blake3, the serialized
-- envelope from serde: they are parameters. Instants are seconds, below 2^63 (`as i64`).
pub mod Sees
pub mod Lifetime
use ephemera_social.Base.{
  ℕ, ◌+◌, ◌-◌, ◌*◌, Option, none, some, List, [], ◌∷◌, Bool, true, false, not, ◌&&◌, length, ltb,
  leb, min, if◌then◌else◌, is_some, same, list_ord, nat_ord, Bytes, keep, map, sort_by_key,
}
use ephemera_social.Map
use ephemera_social.Map.{Map, get, insert, remove, contains_key}

abbrev pub dead_drop_max_ttl_secs : ℕ
dead_drop_max_ttl_secs = 14 * 24 * 60 * 60

-- A row but for its primary key.
pub record Row : Type 0 where
  pub mailbox_key : Bytes
  pub sealed_data : Bytes
  pub deposited_at : ℕ
  pub expires_at : ℕ

pub record PendingMessage : Type 0 where
  pub id : Bytes
  pub sealed_envelope : Bytes
  pub deposited_at : ℕ
  pub expires_at : ℕ

abbrev pub Table : Type 0
Table = Map Bytes Row

-- The errors of `MessageError` that the service returns.
pub data MessageError : Type 0 where
  deserialization : MessageError
  conversation_not_found : Bytes → MessageError
  expired : MessageError

pub data Result (A : Type 0) : Type 0 where
  ok : A → Result A
  err : MessageError → Result A

-- `INSERT OR IGNORE`
unfoldable pub insert_or_ignore : Bytes → Row → Table → Table
unfolding get insert
insert_or_ignore id row table = if contains_key id table then table else insert id row table

-- The part of `deposit` after the serialization.
abbrev pub deposit_sealed :
    (Bytes → Bytes) → ℕ → Bytes → Option Bytes → Table → Table × Result Bytes
deposit_sealed hash now mailbox none table = (table, err deserialization)
deposit_sealed hash now mailbox (some blob) table = (
  insert_or_ignore (hash blob)
      (record {
        mailbox_key = mailbox;
        sealed_data = blob;
        deposited_at = now;
        expires_at = now + dead_drop_max_ttl_secs;
      })
      table,
  ok (hash blob),
)

-- The envelope is what serde makes of it: bytes, or an error.
unfoldable pub deposit :
    (mailbox_key hash : Bytes → Bytes) → ℕ → Bytes → Option Bytes → Table → Table × Result Bytes
unfolding insert_or_ignore
deposit mailbox_key hash now recipient sealed table =
    deposit_sealed hash now (mailbox_key recipient) sealed table

-- The test of the `WHERE` clause.
abbrev pub is_pending : ℕ → Bytes → Row → Bool
is_pending now mailbox row = same row.mailbox_key mailbox && ltb now row.expires_at

abbrev pub pending_message : Bytes × Row → PendingMessage
pending_message (id, row) = record {
  id = id;
  sealed_envelope = row.sealed_data;
  deposited_at = row.deposited_at;
  expires_at = row.expires_at;
}

-- The rows that the query selects, before `ORDER BY`.
abbrev pub pending_rows : ℕ → Bytes → Table → List (Bytes × Row)
pending_rows now mailbox table = keep (λ e. is_pending now mailbox e.1) table

-- Messages of one instant stand in the order of their ids here, where SQL leaves their order open.
unfoldable pub check_mailbox : (Bytes → Bytes) → ℕ → Bytes → Table → List PendingMessage
unfolding keep sort_by_key
check_mailbox mailbox_key now our_pubkey table =
    sort_by_key (λ m. m.deposited_at)
      (map pending_message (pending_rows now (mailbox_key our_pubkey) table))

unfoldable pub acknowledge : Bytes → Table → Table × Result Unit
unfolding get remove
acknowledge id table =
    if contains_key id table
    then (remove id table, ok tt)
    else (table, err (conversation_not_found id))

unfoldable pub gc : ℕ → Table → Table × ℕ
unfolding keep
gc now table =
    let kept = keep (λ e. ltb now (e.1.expires_at)) table in (kept, Map.size table - Map.size kept)

unfoldable pub deposit_raw : ℕ → Bytes → Bytes → Bytes → ℕ → ℕ → Table → Table × Result Unit
unfolding insert_or_ignore
deposit_raw now mailbox id blob deposited_at expires_at table =
    if leb expires_at now then (table, err expired) else (
      insert_or_ignore id
          (record {
            mailbox_key = mailbox;
            sealed_data = blob;
            deposited_at = deposited_at;
            expires_at = min expires_at (now + dead_drop_max_ttl_secs);
          })
          table,
      ok tt,
    )

unfoldable pub mailbox_count : (Bytes → Bytes) → ℕ → Bytes → Table → ℕ
unfolding keep
mailbox_count mailbox_key now pubkey table = length (pending_rows now (mailbox_key pubkey) table)
