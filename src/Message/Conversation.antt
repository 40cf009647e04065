-- ===== src/Message/Conversation.antt =====
-- crates/ephemera-message/src/conversation.rs: the conversations, the most recent first.
pub mod Peers
pub mod Laws
use ephemera_social.Base.{
  ℕ, ◌+◌, List, [], ◌∷◌, ◌++◌, Option, none, some, Bool, true, false, not, if◌then◌else◌, same,
  list_ord, nat_ord, Bytes, keep, any, find, length, sort_by_key, descending, u32_max, min,
}

pub record Conversation : Type 0 where
  pub peer_id : Bytes
  pub last_message_at : ℕ
  pub unread_count : ℕ

unfoldable pub new : Bytes → ℕ → Conversation
new peer_id last_message_at = record {
  peer_id = peer_id;
  last_message_at = last_message_at;
  unread_count = 0;
}

-- `saturating_add` on a `u32`.
unfoldable pub record_incoming : ℕ → Conversation → Conversation
record_incoming timestamp c = record c {
  last_message_at = timestamp;
  unread_count = min (c.unread_count + 1) u32_max;
}

unfoldable pub record_outgoing : ℕ → Conversation → Conversation
record_outgoing timestamp c = record c { last_message_at = timestamp }

unfoldable pub mark_read : Conversation → Conversation
mark_read c = record c { unread_count = 0 }

-- `ConversationList`
abbrev pub Conversations : Type 0
Conversations = List Conversation

abbrev pub with_peer : Bytes → Conversation → Bool
with_peer peer c = same c.peer_id peer

-- `get`
unfoldable pub conversation : Bytes → Conversations → Option Conversation
unfolding find
conversation peer cs = find (with_peer peer) cs

-- A change through `get_mut`: to the first conversation of the peer.
unfoldable pub modify : Bytes → (Conversation → Conversation) → Conversations → Conversations
modify peer f [] = []
modify peer f (c ∷ cs) = if with_peer peer c then f c ∷ cs else c ∷ modify peer f cs

-- `sort_by`, a stable sort.
unfoldable pub sort : Conversations → Conversations
unfolding sort_by_key
sort cs = sort_by_key ⦃o = descending⦄ (λ c. c.last_message_at) cs

unfoldable pub upsert_incoming : Bytes → ℕ → Conversations → Conversations
unfolding any modify record_incoming new sort
upsert_incoming peer timestamp cs = sort (
    if any (with_peer peer) cs
    then modify peer (record_incoming timestamp) cs
    else cs ++ record (new peer timestamp) { unread_count = 1 } ∷ [])

unfoldable pub upsert_outgoing : Bytes → ℕ → Conversations → Conversations
unfolding any modify record_outgoing new sort
upsert_outgoing peer timestamp cs = sort (
    if any (with_peer peer) cs
    then modify peer (record_outgoing timestamp) cs
    else cs ++ new peer timestamp ∷ [])

unfoldable pub remove : Bytes → Conversations → Conversations
unfolding keep
remove peer cs = keep (λ c. not (with_peer peer c)) cs
