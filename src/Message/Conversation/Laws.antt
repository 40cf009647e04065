-- ===== src/Message/Conversation/Laws.antt =====
-- What each operation makes of the list and of each conversation.
use ephemera_social.Base.{
  ℕ, ◌≡◌, refl, ap, ◌∙◌, [], ◌∷◌, ◌++◌, none, some, Bool, true, false, not, if◌then◌else◌, same,
  list_ord, nat_ord, list_self, list_eq, Bytes, keep, any, find, not_above, descending,
  sort_by_key-Ascends, arith, All-keep, Bool-cases, inl, inr, is_some,
}
use ephemera_social.Message.Conversation.{
  Conversation, Conversations, new, record_incoming, record_outgoing, with_peer, conversation,
  modify, sort, upsert_incoming, upsert_outgoing, remove,
}
use ephemera_social.Message.Conversation.Peers.{
  Distinct, Recent, IsValid, changed, sort-Distinct, conversation-sort, modify-Distinct,
  conversation-modify, append-Distinct, conversation-append, no_conversation,
}

-- What an update or an insertion before the sort makes of the list.
abbrev upsert : Bytes → (Conversation → Conversation) → Conversation → Conversations → Conversations
upsert peer f x cs = if any (with_peer peer) cs then modify peer f cs else cs ++ x ∷ []

module _ (peer : Bytes) (f : Conversation → Conversation)
    (keeps : (c : Conversation) → (f c).peer_id ≡ c.peer_id) (x : Conversation)
    (own : x.peer_id ≡ peer) where
  upsert-Distinct : (cs : Conversations) → Distinct cs → Distinct (upsert peer f x cs)
  upsert-Distinct cs d = elim (Bool-cases (any (with_peer peer) cs)) [
    | inl e ↦ rw e (modify-Distinct peer f keeps cs d)
    | inr e ↦ rw e (append-Distinct x cs (ap (λ p. any (with_peer p) cs) own ∙ e) d)
  ]

  upsert-IsValid : (cs : Conversations) → IsValid cs → IsValid (sort (upsert peer f x cs))
  unfolding sort
  upsert-IsValid cs v = record {
    distinct = sort-Distinct (upsert peer f x cs) (upsert-Distinct cs v.distinct);
    recent = sort_by_key-Ascends ⦃o = descending⦄ (λ c. c.last_message_at) (upsert peer f x cs);
  }

  -- The conversation with any peer after an update or an insertion and the sort.
  conversation-upsert :
      (q : Bytes) (cs : Conversations)
      → IsValid cs
      → conversation q (sort (upsert peer f x cs)) ≡ (
          if same q peer
          then (if is_some (conversation peer cs) then changed f (conversation peer cs) else some x)
          else conversation q cs)
  conversation-upsert q cs v =
      conversation-sort q (upsert peer f x cs) (upsert-Distinct cs v.distinct)
      ∙ ground (
        arith,
        conversation-modify peer f keeps q cs,
        conversation-append q x cs,
        no_conversation peer cs,
        own,
        list_eq {A = ℕ} q peer,
      )

Ascends-keep : (p : Conversation → Bool) (cs : Conversations) → Recent cs → Recent (keep p cs)
unfolding keep
Ascends-keep p [] r = tt
Ascends-keep p (c ∷ cs) r = elim (Bool-cases (p c)) [
  | inl e ↦ rw e (
    All-keep (λ y. not_above ⦃o = descending⦄ (λ c. c.last_message_at) c y ≡ true) p cs r.0,
    Ascends-keep p cs r.1,
  )
  | inr e ↦ rw e (Ascends-keep p cs r.1)
]

any-keep :
    (peer p : Bytes) (cs : Conversations)
    → any (with_peer p) cs ≡ false
    → any (with_peer p) (remove peer cs) ≡ false
unfolding remove keep any
any-keep peer p [] h = refl
any-keep peer p (c ∷ cs) h = ground (arith, any-keep peer p cs)

remove-Distinct : (peer : Bytes) (cs : Conversations) → Distinct cs → Distinct (remove peer cs)
unfolding remove keep
remove-Distinct peer [] d = tt
remove-Distinct peer (c ∷ cs) d =
    ground (arith, remove-Distinct peer cs, any-keep peer c.peer_id cs)

-- Recording an incoming and an outgoing message and removing a conversation keep one conversation for
-- each peer, and the list in the order of the last message, the most recent first.
pub conversations-IsValid :
    (peer : Bytes) (timestamp : ℕ) (cs : Conversations)
    → IsValid cs
    → IsValid (upsert_incoming peer timestamp cs)
      × IsValid (upsert_outgoing peer timestamp cs)
      × IsValid (remove peer cs)
unfolding upsert_incoming upsert_outgoing remove keep
conversations-IsValid peer timestamp cs v = (
  upsert-IsValid peer (record_incoming timestamp) (λ c. refl)
      (record (new peer timestamp) { unread_count = 1 }) refl cs v,
  upsert-IsValid peer (record_outgoing timestamp) (λ c. refl) (new peer timestamp) refl cs v,
  record {
    distinct = remove-Distinct peer cs v.distinct;
    recent = Ascends-keep (λ c. not (with_peer peer c)) cs v.recent;
  },
)

conversation-remove :
    (q peer : Bytes) (cs : Conversations)
    → conversation q (remove peer cs) ≡ (if same q peer then none else conversation q cs)
unfolding remove conversation keep find
conversation-remove q peer [] = ground arith
conversation-remove q peer (c ∷ cs) = ground (
  arith,
  conversation-remove q peer cs,
  list_eq {A = ℕ} c.peer_id peer,
  list_eq {A = ℕ} c.peer_id q,
  list_eq {A = ℕ} q peer,
  list_self {A = ℕ} peer,
)

-- A message that comes in or goes out sets the instant of its peer's conversation, or opens one
-- with that instant; one that comes in adds one to the unread ones, up to the bound of the counter;
-- a removed conversation is gone; and the conversations with the other peers are as before.
pub conversation-ops :
    (q peer : Bytes) (timestamp : ℕ) (cs : Conversations)
    → IsValid cs
    → (conversation q (upsert_incoming peer timestamp cs) ≡ (
        if same q peer
        then (if is_some (conversation peer cs)
            then changed (record_incoming timestamp) (conversation peer cs)
            else some (record { peer_id = peer; last_message_at = timestamp; unread_count = 1 }))
        else conversation q cs))
      × (conversation q (upsert_outgoing peer timestamp cs) ≡ (
          if same q peer
          then (if is_some (conversation peer cs)
              then changed (record_outgoing timestamp) (conversation peer cs)
              else some (record { peer_id = peer; last_message_at = timestamp; unread_count = 0 }))
          else conversation q cs))
      × (conversation q (remove peer cs) ≡ (if same q peer then none else conversation q cs))
unfolding upsert_incoming upsert_outgoing new
conversation-ops q peer timestamp cs v = (
  conversation-upsert peer (record_incoming timestamp) (λ c. refl)
      (record (new peer timestamp) { unread_count = 1 }) refl q cs v,
  conversation-upsert peer (record_outgoing timestamp) (λ c. refl) (new peer timestamp) refl q cs v,
  conversation-remove q peer cs,
)
