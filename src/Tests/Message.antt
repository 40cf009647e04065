-- ===== src/Tests/Message.antt =====
-- crates/ephemera-message at small inputs. Stand-ins take the place of the hashes.
use ephemera_social.Base.{
  List, ◌+◌, ◌≡◌, ◌↔◌, refl, none, some, [], ◌∷◌, true, false, not, ◌&&◌, arith, length, same,
  list_ord, nat_ord, if◌then◌else◌, Ascends, ltb, Bytes, map, is_some, any, keep, sort_by_key,
}
use mathlib.Core.List.{Perm}
use ephemera_social.Map
use ephemera_social.Map.{contains_key, get, insert}
use ephemera_social.Message.DeadDrop
use ephemera_social.Message.DeadDrop.{
  Row, Table, PendingMessage, deposit, deposit_raw, acknowledge, gc, check_mailbox, mailbox_count,
  pending_message, pending_rows, dead_drop_max_ttl_secs, ok, err, expired,
}
use ephemera_social.Message.DeadDrop.Sees.{
  check_mailbox_rows, sees, sees-deposit, sees-deposit_raw, sees-acknowledge,
}
use ephemera_social.Message.DeadDrop.Lifetime.{
  Call, deposits, deposits_raw, acknowledges, collects, perform_all, dead_drop-IsValid, gc_empties,
}
use ephemera_social.Message.Conversation
use ephemera_social.Message.Conversation.{
  Conversation, Conversations, conversation, upsert_incoming, upsert_outgoing, remove,
  record_incoming, record_outgoing,
}
use ephemera_social.Message.Conversation.Peers.{changed}
use ephemera_social.Message.Conversation.Laws.{conversations-IsValid, conversation-ops}
use ephemera_social.Message.Request
use ephemera_social.Message.Request.{
  MessageRequest, max_intro_length, pending, created, pending_request, act, act_all, do_accept,
  do_reject, decided, invalid_request_state, first_decision,
}

mailbox : Bytes → Bytes
mailbox key = 100 ∷ key

digest : Bytes → Bytes
digest blob = 200 ∷ blob

-- One message for the recipient with the key 1.
abbrev table : Table
table =
    (
      5 ∷ [],
      record {
        mailbox_key = 100 ∷ 1 ∷ [];
        sealed_data = 9 ∷ [];
        deposited_at = 50;
        expires_at = 1000;
      },
    )
    ∷ []

seen_message : sees mailbox digest 60 (1 ∷ []) (5 ∷ []) table ≡ true
unfolding check_mailbox mailbox any keep sort_by_key
seen_message = refl

table-IsValid : DeadDrop.Lifetime.IsValid 50 table
table-IsValid = record { sorted = (tt, tt); bounded = (omega arith, tt) }

check_mailbox_rows_example :
    Perm
      (check_mailbox mailbox 60 (1 ∷ []) table)
      (map pending_message (pending_rows 60 (mailbox (1 ∷ [])) table))
    × Ascends (λ m. m.deposited_at) (check_mailbox mailbox 60 (1 ∷ []) table)
    × (mailbox_count mailbox 60 (1 ∷ []) table ≡ length (check_mailbox mailbox 60 (1 ∷ []) table))
check_mailbox_rows_example = check_mailbox_rows mailbox digest 60 (1 ∷ []) table

sees-deposit_example :
    sees mailbox digest 90
      (2 ∷ [])
      (7 ∷ [])
      (deposit mailbox digest 60 (2 ∷ []) (some (8 ∷ [])) table).0
    ≡ (if same {K = Bytes} (7 ∷ []) (digest (8 ∷ [])) && not (contains_key (digest (8 ∷ [])) table)
        then same (mailbox (2 ∷ [])) (mailbox (2 ∷ [])) && ltb 90 (60 + dead_drop_max_ttl_secs)
        else sees mailbox digest 90 (2 ∷ []) (7 ∷ []) table)
sees-deposit_example =
    sees-deposit mailbox digest 60 90 (2 ∷ []) (2 ∷ []) (7 ∷ []) (8 ∷ []) table (tt, tt)

sees-deposit_raw_example :
    (sees mailbox digest 90
        (2 ∷ [])
        (6 ∷ [])
        (deposit_raw 60 (100 ∷ 2 ∷ []) (6 ∷ []) (8 ∷ []) 55 800 table).0
      ≡ (if same {K = Bytes} (6 ∷ []) (6 ∷ []) && (ltb 60 800 && not (contains_key (6 ∷ []) table))
          then same (100 ∷ 2 ∷ []) (mailbox (2 ∷ []))
            && (ltb 90 800 && ltb 90 (60 + dead_drop_max_ttl_secs))
          else sees mailbox digest 90 (2 ∷ []) (6 ∷ []) table))
    × ((deposit_raw 60 (100 ∷ 2 ∷ []) (6 ∷ []) (8 ∷ []) 55 800 table).1
        ≡ (if ltb 60 800 then ok tt else err expired))
sees-deposit_raw_example =
    sees-deposit_raw mailbox digest 60 90 (100 ∷ 2 ∷ []) (6 ∷ []) (8 ∷ []) (2 ∷ []) (6 ∷ []) 55 800
      table (tt, tt)

sees-acknowledge_example :
    (sees mailbox digest 90 (1 ∷ []) (5 ∷ []) (acknowledge (5 ∷ []) table).0 ≡ (
      if same {K = Bytes} (5 ∷ []) (5 ∷ [])
      then false
      else sees mailbox digest 90 (1 ∷ []) (5 ∷ []) table))
    × (((acknowledge (5 ∷ []) table).1 ≡ ok tt) ↔ (contains_key (5 ∷ []) table ≡ true))
    × (sees mailbox digest 90 (1 ∷ []) (5 ∷ []) (gc 60 table).0
        ≡ sees mailbox digest 90 (1 ∷ []) (5 ∷ []) table)
    × (Map.size (gc 60 table).0 + (gc 60 table).1 ≡ 1)
sees-acknowledge_example =
    sees-acknowledge mailbox digest 60 90 (5 ∷ []) (1 ∷ []) (5 ∷ []) table (tt, tt) (omega arith)

dead_drop-IsValid_example :
    DeadDrop.Lifetime.IsValid 60 (deposit mailbox digest 60 (2 ∷ []) (some (8 ∷ [])) table).0
    × DeadDrop.Lifetime.IsValid 60 (deposit_raw 60 (100 ∷ 2 ∷ []) (6 ∷ []) (8 ∷ []) 55 800 table).0
    × DeadDrop.Lifetime.IsValid 60 (acknowledge (6 ∷ []) table).0
    × DeadDrop.Lifetime.IsValid 60 (gc 60 table).0
dead_drop-IsValid_example =
    dead_drop-IsValid mailbox digest 50 60 (2 ∷ []) (100 ∷ 2 ∷ []) (6 ∷ []) (8 ∷ []) (some (8 ∷ []))
      55 800 table (omega arith) table-IsValid

abbrev two_deposits : List Call
two_deposits =
    deposits_raw 100 (100 ∷ 2 ∷ []) (6 ∷ []) (8 ∷ []) 55 9000000
    ∷ deposits 200 (1 ∷ []) (some (9 ∷ []))
    ∷ acknowledges (9 ∷ [])
    ∷ collects 300
    ∷ []

gc_empties_example :
    gc 2000000 (perform_all mailbox digest two_deposits [])
    ≡ ([], Map.size (perform_all mailbox digest two_deposits []))
gc_empties_example =
    gc_empties mailbox digest 2000000 two_deposits (omega arith, (omega arith, (tt, (tt, tt))))

abbrev chats : Conversations
chats =
    record { peer_id = 2 ∷ []; last_message_at = 200; unread_count = 0 }
    ∷ record { peer_id = 1 ∷ []; last_message_at = 100; unread_count = 1 }
    ∷ []

chats-IsValid : Conversation.Peers.IsValid chats
unfolding any
chats-IsValid = record { distinct = (refl, (refl, tt)); recent = ((refl, tt), (tt, tt)) }

-- A newer message moves its conversation to the top.
newest_first :
    (upsert_incoming (1 ∷ []) 300 chats)
    ≡ record { peer_id = 1 ∷ []; last_message_at = 300; unread_count = 2 }
      ∷ record { peer_id = 2 ∷ []; last_message_at = 200; unread_count = 0 }
      ∷ []
unfolding upsert_incoming
newest_first = refl

conversations-IsValid_example :
    Conversation.Peers.IsValid (upsert_incoming (1 ∷ []) 300 chats)
    × Conversation.Peers.IsValid (upsert_outgoing (1 ∷ []) 300 chats)
    × Conversation.Peers.IsValid (remove (1 ∷ []) chats)
conversations-IsValid_example = conversations-IsValid (1 ∷ []) 300 chats chats-IsValid

conversation-ops_example :
    (conversation (2 ∷ []) (upsert_incoming (1 ∷ []) 300 chats) ≡ (
      if same {K = Bytes} (2 ∷ []) (1 ∷ [])
      then (if is_some (conversation (1 ∷ []) chats)
          then changed (record_incoming 300) (conversation (1 ∷ []) chats)
          else some (record { peer_id = 1 ∷ []; last_message_at = 300; unread_count = 1 }))
      else conversation (2 ∷ []) chats))
    × (conversation (2 ∷ []) (upsert_outgoing (1 ∷ []) 300 chats) ≡ (
        if same {K = Bytes} (2 ∷ []) (1 ∷ [])
        then (if is_some (conversation (1 ∷ []) chats)
            then changed (record_outgoing 300) (conversation (1 ∷ []) chats)
            else some (record { peer_id = 1 ∷ []; last_message_at = 300; unread_count = 0 }))
        else conversation (2 ∷ []) chats))
    × (conversation (2 ∷ []) (remove (1 ∷ []) chats)
        ≡ (if same {K = Bytes} (2 ∷ []) (1 ∷ []) then none else conversation (2 ∷ []) chats))
conversation-ops_example = conversation-ops (2 ∷ []) (1 ∷ []) 300 chats chats-IsValid

abbrev request : MessageRequest
request = pending_request 7 (1 ∷ []) (2 ∷ []) none

first_decision_example :
    (Request.new 7 (1 ∷ []) (2 ∷ []) (some (72 ∷ 105 ∷ []))
      ≡ created (pending_request 7 (1 ∷ []) (2 ∷ []) (some (72 ∷ 105 ∷ []))))
    × ((act do_reject request).1 ≡ Request.ok)
    × ((act_all (do_reject ∷ do_accept ∷ []) request).status ≡ decided do_reject)
    × ((act do_accept (act_all (do_reject ∷ do_accept ∷ []) request)).1
        ≡ Request.err (invalid_request_state (decided do_reject)))
    × ((act do_accept (act_all (do_reject ∷ do_accept ∷ []) request)).0
        ≡ act_all (do_reject ∷ do_accept ∷ []) request)
first_decision_example =
    first_decision 7 (1 ∷ []) (2 ∷ []) (72 ∷ 105 ∷ []) do_reject do_accept (do_accept ∷ []) request
      (omega arith) refl
