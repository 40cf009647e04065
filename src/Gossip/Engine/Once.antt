-- ===== src/Gossip/Engine/Once.antt =====
-- A message is forwarded once in an epoch.
use ephemera_social.Base.{
  ℕ, ◌+◌, ◌≤◌, ◌<◌, ◌≡◌, refl, ap, ◌∙◌, sym, true, false, none, List, [], ◌∷◌, if◌then◌else◌,
  list_ord, nat_ord, All, ◌++◌, Bytes, arith, inl, inr, Bool-cases,
}
use mathlib.Core.Path.{subst}
use ephemera_social.Gossip.Topic.{GossipMessage}
use ephemera_social.Gossip.Dedup
use ephemera_social.Gossip.Dedup.{
  MessageDedup, is_duplicate, Call, check, mark, run, call, Within, is_duplicate_marked,
}
use ephemera_social.Gossip.Engine.{PlumTreeEngine, receive_message}
use ephemera_social.Gossip.Engine.Laws.{Incoming, receive, receive_all}

run-append : (cs ds : List Call) (d : MessageDedup) → run (cs ++ ds) d ≡ run ds (run cs d)
unfolding run
run-append [] ds d = refl
run-append (c ∷ cs) ds d = run-append cs ds (call c d)

module _ {Sender : Type 0} (channel : ℕ → Sender) (try_send : GossipMessage → Sender → Sender) where
  -- The calls that a message makes on the memory of hashes.
  calls : Incoming → PlumTreeEngine Sender → List Call
  calls m e =
      if (is_duplicate m.arrival m.content_hash e.dedup).1
      then check m.arrival m.content_hash ∷ []
      else check m.arrival m.content_hash ∷ mark m.content_hash ∷ []

  dedup-receive :
      (m : Incoming) (e : PlumTreeEngine Sender)
      → (receive channel try_send m e).0.dedup ≡ run (calls m e) e.dedup
  unfolding receive receive_message calls run call is_duplicate
  dedup-receive m e = ground arith

  -- The messages arrive from `start` on and before `end`.
  abbrev pub Arrive : ℕ → ℕ → List Incoming → Type 0
  Arrive start end ms = All (λ m. (start ≤ m.arrival) × (m.arrival < end)) ms

  all_calls : List Incoming → PlumTreeEngine Sender → List Call
  all_calls [] e = []
  all_calls (m ∷ ms) e = calls m e ++ all_calls ms (receive channel try_send m e).0

  dedup-receive_all :
      (ms : List Incoming) (e : PlumTreeEngine Sender)
      → (receive_all channel try_send ms e).dedup ≡ run (all_calls ms e) e.dedup
  unfolding receive_all all_calls run
  dedup-receive_all [] e = refl
  dedup-receive_all (m ∷ ms) e =
      dedup-receive_all ms (receive channel try_send m e).0
      ∙ ap (run (all_calls ms (receive channel try_send m e).0)) (dedup-receive m e)
      ∙ sym (run-append (calls m e) (all_calls ms (receive channel try_send m e).0) e.dedup)

  all_calls-Within :
      (start end : ℕ) (ms : List Incoming) (e : PlumTreeEngine Sender)
      → Arrive start end ms
      → Within start end (all_calls ms e)
  unfolding all_calls calls
  all_calls-Within start end [] e a = tt
  all_calls-Within start end (m ∷ ms) e a =
      let rest = all_calls-Within start end ms (receive channel try_send m e).0 a.1 in
      elim (Bool-cases (is_duplicate m.arrival m.content_hash e.dedup).1) [
        | inl d ↦ rw d (a.0.0, a.0.1, rest)
        | inr d ↦ rw d (a.0.0, a.0.1, rest)
      ]

  ignored :
      (m : Incoming) (e : PlumTreeEngine Sender)
      → (is_duplicate m.arrival m.content_hash e.dedup).1 ≡ true
      → ((receive channel try_send m e).1 ≡ none)
        × ((receive channel try_send m e).0.topics ≡ e.topics)
  unfolding receive receive_message
  ignored m e d = rw d (refl, refl)

  marked :
      (m : Incoming) (e : PlumTreeEngine Sender)
      → (is_duplicate m.arrival m.content_hash e.dedup).1 ≡ false
      → (receive channel try_send m e).0.dedup
        ≡ Dedup.mark_seen m.content_hash (is_duplicate m.arrival m.content_hash e.dedup).0
  unfolding receive receive_message
  marked m e d = rw d refl

  epoch_duration-is_duplicate :
      (now : ℕ) (hash : Bytes) (d : MessageDedup)
      → (is_duplicate now hash d).0.epoch_duration ≡ d.epoch_duration
  unfolding is_duplicate Dedup.maybe_rotate
  epoch_duration-is_duplicate now hash d = ground arith

  -- Once a message that is not a duplicate was received, a later message with its content hash is
  -- not forwarded and changes no topic's state, whatever was received in between, while all
  -- arrivals after the first lie within one epoch of it.
  pub delivered_once :
      (m later : Incoming) (between : List Incoming) (e : PlumTreeEngine Sender)
      → (is_duplicate m.arrival m.content_hash e.dedup).1 ≡ false
      → later.content_hash ≡ m.content_hash
      → Arrive m.arrival (m.arrival + e.dedup.epoch_duration) (later ∷ between)
      → ((receive channel try_send later
            (receive_all channel try_send between (receive channel try_send m e).0)).1
          ≡ none)
        × ((receive channel try_send later
              (receive_all channel try_send between (receive channel try_send m e).0)).0.topics
            ≡ (receive_all channel try_send between (receive channel try_send m e).0).topics)
  delivered_once m later between e fresh hash a =
      let first = (receive channel try_send m e).0 in
      let last = receive_all channel try_send between first in
      let d = (is_duplicate m.arrival m.content_hash e.dedup).0 in
      let lasts = epoch_duration-is_duplicate m.arrival m.content_hash e.dedup in
      let arrivals =
        subst (λ n. Arrive m.arrival (m.arrival + n) (later ∷ between)) (sym lasts) a in
      let dedup =
        dedup-receive_all between first ∙ ap (run (all_calls between first)) (marked m e fresh) in
      let known =
        is_duplicate_marked m.arrival later.arrival m.content_hash (all_calls between first) d
          (all_calls-Within m.arrival (m.arrival + d.epoch_duration) between first arrivals.1)
          arrivals.0.0 arrivals.0.1 in
      ignored later last (
        ap (λ h. (is_duplicate later.arrival h last.dedup).1) hash
        ∙ ap (λ x. (is_duplicate later.arrival m.content_hash x).1) dedup
        ∙ known.0)
