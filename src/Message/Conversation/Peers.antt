-- ===== src/Message/Conversation/Peers.antt =====
-- The order and the distinct peers of the list, and what sorting, changing and appending do to them.
use ephemera_social.Base.{
  ℕ, ◌≡◌, refl, ap, ◌∙◌, [], ◌∷◌, ◌++◌, Option, none, some, true, false, ◌||◌, if◌then◌else◌, same,
  list_ord, nat_ord, list_self, list_eq, list_flip, Bytes, any, find, sort_by_key, insert_by,
  descending, Ascends, any-sort_by_key, any-insert_by, arith, Bool-cases, inl, inr, is_some,
}
use ephemera_social.Message.Conversation.{
  Conversation, Conversations, with_peer, conversation, modify, sort,
}

-- The conversation with a peer is the only one.
abbrev pub Distinct : Conversations → Type 0
Distinct [] = Unit
Distinct (c ∷ cs) = (any (with_peer c.peer_id) cs ≡ false) × Distinct cs

abbrev pub Recent : Conversations → Type 0
Recent cs = Ascends ⦃o = descending⦄ (λ c. c.last_message_at) cs

pub record IsValid (cs : Conversations) : Type 0 where
  pub distinct : Distinct cs
  pub recent : Recent cs

abbrev place : Conversation → Conversations → Conversations
place c cs = insert_by ⦃o = descending⦄ (λ x. x.last_message_at) c cs

any-with_peer :
    (p q : Bytes) (cs : Conversations)
    → same p q ≡ true
    → any (with_peer p) cs ≡ any (with_peer q) cs
any-with_peer p q cs h = ap (λ x. any (with_peer x) cs) (ground (arith, list_eq {A = ℕ} p q))

pub place-Distinct :
    (c : Conversation) (cs : Conversations)
    → any (with_peer c.peer_id) cs ≡ false
    → Distinct cs
    → Distinct (place c cs)
unfolding insert_by any
place-Distinct c [] h d = (h, tt)
place-Distinct c (x ∷ cs) h d = ground (
  arith,
  place-Distinct c cs,
  any-insert_by ⦃o = descending⦄ (λ x. x.last_message_at) (with_peer x.peer_id) c cs,
  list_flip {A = ℕ} x.peer_id c.peer_id,
)

pub sort-Distinct : (cs : Conversations) → Distinct cs → Distinct (sort cs)
unfolding sort sort_by_key
sort-Distinct [] d = tt
sort-Distinct (c ∷ cs) d =
    place-Distinct c (sort cs)
      (any-sort_by_key ⦃o = descending⦄ (λ x. x.last_message_at) (with_peer c.peer_id) cs ∙ d.0)
      (sort-Distinct cs d.1)

-- Where the peers are distinct, sorting changes no conversation.
find-place :
    (q : Bytes) (c : Conversation) (cs : Conversations)
    → any (with_peer c.peer_id) cs ≡ false
    → find (with_peer q) (place c cs) ≡ find (with_peer q) (c ∷ cs)
unfolding insert_by any find
find-place q c [] h = refl
find-place q c (x ∷ cs) h = ground (
  arith,
  find-place q c cs,
  list_eq {A = ℕ} x.peer_id q,
  list_eq {A = ℕ} c.peer_id q,
  list_self {A = ℕ} q,
)

pub conversation-sort :
    (q : Bytes) (cs : Conversations) → Distinct cs → conversation q (sort cs) ≡ conversation q cs
unfolding conversation sort sort_by_key find
conversation-sort q [] d = refl
conversation-sort q (c ∷ cs) d =
    find-place q c (sort cs)
      (any-sort_by_key ⦃o = descending⦄ (λ x. x.last_message_at) (with_peer c.peer_id) cs ∙ d.0)
    ∙ ap (λ o. if with_peer q c then some c else o) (conversation-sort q cs d.1)

-- What a change does to a slot.
abbrev pub changed : (Conversation → Conversation) → Option Conversation → Option Conversation
changed f none = none
changed f (some c) = some (f c)

module _ (peer : Bytes) (f : Conversation → Conversation)
    (keeps : (c : Conversation) → (f c).peer_id ≡ c.peer_id) where
  pub any-modify :
      (q : Bytes) (cs : Conversations) → any (with_peer q) (modify peer f cs) ≡ any (with_peer q) cs
  unfolding any modify
  any-modify q [] = refl
  any-modify q (c ∷ cs) = ground (arith, any-modify q cs, keeps c)

  pub modify-Distinct : (cs : Conversations) → Distinct cs → Distinct (modify peer f cs)
  unfolding modify
  modify-Distinct [] d = tt
  modify-Distinct (c ∷ cs) d = elim (Bool-cases (with_peer peer c)) [
    | inl e ↦ rw e (ap (λ p. any (with_peer p) cs) (keeps c) ∙ d.0, d.1)
    | inr e ↦ rw e (any-modify c.peer_id cs ∙ d.0, modify-Distinct cs d.1)
  ]

  pub conversation-modify :
      (q : Bytes) (cs : Conversations)
      → conversation q (modify peer f cs)
        ≡ (if same q peer then changed f (conversation q cs) else conversation q cs)
  unfolding conversation find modify
  conversation-modify q [] = ground arith
  conversation-modify q (c ∷ cs) = ground (
    arith,
    conversation-modify q cs,
    keeps c,
    list_eq {A = ℕ} c.peer_id peer,
    list_eq {A = ℕ} c.peer_id q,
    list_eq {A = ℕ} q peer,
    list_self {A = ℕ} q,
    list_self {A = ℕ} peer,
  )

pub any-append :
    (p : Bytes) (x : Conversation) (cs : Conversations)
    → any (with_peer p) (cs ++ x ∷ []) ≡ (any (with_peer p) cs || with_peer p x)
unfolding any
any-append p x [] = ground arith
any-append p x (c ∷ cs) = ground (arith, any-append p x cs)

pub append-Distinct :
    (x : Conversation) (cs : Conversations)
    → any (with_peer x.peer_id) cs ≡ false
    → Distinct cs
    → Distinct (cs ++ x ∷ [])
unfolding any
append-Distinct x [] h d = (refl, tt)
append-Distinct x (c ∷ cs) h d =
    ground (
      arith,
      append-Distinct x cs,
      any-append c.peer_id x cs,
      list_flip {A = ℕ} x.peer_id c.peer_id,
    )

pub conversation-append :
    (q : Bytes) (x : Conversation) (cs : Conversations)
    → any (with_peer x.peer_id) cs ≡ false
    → conversation q (cs ++ x ∷ []) ≡ (if same q x.peer_id then some x else conversation q cs)
unfolding conversation find any
conversation-append q x [] h = ground (arith, list_flip {A = ℕ} q x.peer_id)
conversation-append q x (c ∷ cs) h =
    ground
      (arith, conversation-append q x cs, list_eq {A = ℕ} q x.peer_id, list_eq {A = ℕ} c.peer_id q)

pub no_conversation :
    (q : Bytes) (cs : Conversations) → any (with_peer q) cs ≡ is_some (conversation q cs)
unfolding conversation find any
no_conversation q [] = refl
no_conversation q (c ∷ cs) = ground (arith, no_conversation q cs)
