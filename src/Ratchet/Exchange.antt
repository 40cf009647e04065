-- ===== src/Ratchet/Exchange.antt =====
-- Two sides of a conversation stay in step over a channel that delivers a message at once or loses it.
use ephemera_social.Base.{
  ℕ, suc, ◌+◌, ◌<◌, ◌≡◌, ◌⊎◌, inl, inr, refl, ap, ◌∙◌, List, [], ◌∷◌, Option, none, some, Bool,
  true, false, if◌then◌else◌, list_ord, nat_ord, Bytes, arith, as_u32, Bool-cases, length,
}
use ephemera_social.Ratchet.{
  Primitives, RatchetState, init_sender, init_receiver, encrypt_message, decrypt_message,
  dh_ratchet_step, needs_step,
}
use ephemera_social.Ratchet.Step.{
  Stream, Ahead, Sync, advance, sent-Stream, sent-Ahead, deliver-ahead, deliver-back,
}

both_true :
    (c d x y : Bool)
    → (if c then (if d then x else false) else y) ≡ true
    → c ≡ true
    → (d ≡ true) × (x ≡ true)
both_true c d x y h e = ground (arith, h, e)

both_false :
    (c d x y : Bool)
    → (if c then y else (if d then x else false)) ≡ true
    → c ≡ false
    → (d ≡ true) × (x ≡ true)
both_false c d x y h e = ground (arith, h, e)

module _ (crypto : Primitives) where
  -- One side writes; the message is delivered at once, or lost. The receiver has a fresh secret and
  -- the sender a nonce.
  pub record Event : Type 0 where
    pub by_first : Bool
    pub arrives : Bool
    pub fresh : Bytes
    pub nonce : Bytes
    pub plaintext : Bytes

  -- The sender, the receiver, and what the receiver reads, if the message arrives.
  abbrev turn : Event → RatchetState → RatchetState → RatchetState × RatchetState × Option Bytes
  turn e x y =
      let sent = encrypt_message crypto e.nonce e.plaintext x in
      let read = decrypt_message crypto e.fresh sent.1 sent.2 y in
      if e.arrives then (sent.0, read.0, read.1) else (sent.0, y, none)

  abbrev listed : Event → Option Bytes → List (Option Bytes) → List (Option Bytes)
  listed e got rest = if e.arrives then got ∷ rest else rest

  -- What the receivers of a conversation read from the messages that arrive.
  unfoldable pub heard : List Event → RatchetState → RatchetState → List (Option Bytes)
  unfolding encrypt_message decrypt_message
  heard [] a b = []
  heard (e ∷ es) a b =
      let first = turn e a b in
      let second = turn e b a in
      let after_first = heard es first.0 first.1 in
      let after_second = heard es second.1 second.0 in
      if e.by_first then listed e first.2 after_first else listed e second.2 after_second

  -- What was written in them.
  unfoldable pub written : List Event → List (Option Bytes)
  written [] = []
  written (e ∷ es) = listed e (some e.plaintext) (written es)

  abbrev differs : Bytes → RatchetState → Bool
  differs fresh receiver =
      needs_step (some (crypto.public_key receiver.send_ratchet_secret)) (crypto.public_key fresh)

  -- Every fresh key is another than the one it can replace.
  unfoldable pub keys_fresh : List Event → RatchetState → RatchetState → Bool
  unfolding encrypt_message decrypt_message
  keys_fresh [] a b = true
  keys_fresh (e ∷ es) a b =
      let first = turn e a b in
      let second = turn e b a in
      let after_first = keys_fresh es first.0 first.1 in
      let after_second = keys_fresh es second.1 second.0 in
      if e.by_first
      then (if differs e.fresh b then after_first else false)
      else (if differs e.fresh a then after_second else false)

  -- The two sides are in step, with counters that leave room for so many messages.
  record InStep (n : ℕ) (a b : RatchetState) : Type 0 where
    sync : Sync crypto a b ⊎ Sync crypto b a
    room_first : a.send_count + n < 4294967296
    room_second : b.send_count + n < 4294967296

  InStep-swap : (n : ℕ) (a b : RatchetState) → InStep n a b → InStep n b a
  InStep-swap n a b v = record {
    sync = elim v.sync [ inl s ↦ inr s | inr s ↦ inl s ];
    room_first = v.room_second;
    room_second = v.room_first;
  }

  lost-InStep :
      (n : ℕ) (nonce m : Bytes) (x y : RatchetState)
      → InStep (suc n) x y
      → InStep n (encrypt_message crypto nonce m x).0 y
  unfolding encrypt_message
  lost-InStep n nonce m x y v =
      let b : x.send_count + 1 < 4294967296 = omega (arith, v.room_first) in
      let room : as_u32 (x.send_count + 1) + n < 4294967296 = omega (arith, v.room_first) in
      record {
        sync = elim v.sync [
          | inl s ↦ inl (record {
            back = s_back nonce m x y s;
            ahead = sent-Ahead crypto nonce m x y b s.ahead;
          })
          | inr s ↦ inr (record {
            back = sent-Stream crypto nonce m x y b s.back;
            ahead = behind_kept nonce m y x s.ahead;
          })
        ];
        room_first = room;
        room_second = omega (arith, v.room_second);
      }
    where
      s_back :
          (nonce m : Bytes) (x y : RatchetState)
          → Sync crypto x y
          → Stream crypto y (encrypt_message crypto nonce m x).0
      s_back nonce m x y s = record {
        knows = s.back.knows;
        behind = s.back.behind;
        chain = s.back.chain;
      }

      behind_kept :
          (nonce m : Bytes) (x y : RatchetState)
          → Ahead crypto x y
          → Ahead crypto x (encrypt_message crypto nonce m y).0
      behind_kept nonce m x y a = record { unknown = a.unknown; agrees = a.agrees; chain = a.chain }

  arrived-InStep :
      (n : ℕ) (fresh nonce m : Bytes) (x y : RatchetState)
      → differs fresh y ≡ true
      → InStep (suc n) x y
      → InStep n
          (encrypt_message crypto nonce m x).0
          (decrypt_message crypto fresh
            (encrypt_message crypto nonce m x).1
            (encrypt_message crypto nonce m x).2
            y).0
        × ((decrypt_message crypto fresh
              (encrypt_message crypto nonce m x).1
              (encrypt_message crypto nonce m x).2
              y).1
            ≡ some m)
  unfolding encrypt_message dh_ratchet_step
  arrived-InStep n fresh nonce m x y u v =
      let b : x.send_count + 1 < 4294967296 = omega (arith, v.room_first) in
      let room : as_u32 (x.send_count + 1) + n < 4294967296 = omega (arith, v.room_first) in
      elim v.sync [
        | inl s ↦
            let d = deliver-ahead crypto fresh nonce m x y b u s in
            rw d.0 (
              record {
                sync = inr d.1;
                room_first = room;
                room_second = omega (arith, v.room_second);
              },
              refl,
            )
        | inr s ↦
            let d = deliver-back crypto fresh nonce m y x b s in
            rw d.0 (
              record {
                sync = inr d.1;
                room_first = room;
                room_second = omega (arith, v.room_second);
              },
              refl,
            )
      ]

  turn-InStep :
      (n : ℕ) (e : Event) (x y : RatchetState)
      → differs e.fresh y ≡ true
      → InStep (suc n) x y
      → InStep n (turn e x y).0 (turn e x y).1
        × ((rest : List (Option Bytes))
            → listed e (turn e x y).2 rest ≡ listed e (some e.plaintext) rest)
  turn-InStep n e x y u v = elim (Bool-cases e.arrives) [
    | inl h ↦
        let d = arrived-InStep n e.fresh e.nonce e.plaintext x y u v in
        rw h (d.0, λ rest. ap (λ o. o ∷ rest) d.1)
    | inr h ↦ rw h (lost-InStep n e.nonce e.plaintext x y v, λ rest. refl)
  ]

  -- From two sides in step.
  heard-InStep :
      (es : List Event) (a b : RatchetState)
      → InStep (length es) a b
      → keys_fresh es a b ≡ true
      → heard es a b ≡ written es
  unfolding heard written keys_fresh
  heard-InStep [] a b v f = refl
  heard-InStep (e ∷ es) a b v f = elim (Bool-cases e.by_first) [
    | inl h ↦
        let g = both_true e.by_first (differs e.fresh b) _ _ f h in
        let t = turn-InStep (length es) e a b g.0 v in
        rw h (t.1 _ ∙ ap (listed e (some e.plaintext)) (heard-InStep es _ _ t.0 g.1))
    | inr h ↦
        let g = both_false e.by_first (differs e.fresh a) _ _ f h in
        let t = turn-InStep (length es) e b a g.0 (InStep-swap (suc (length es)) a b v) in
        rw h (
          t.1 _
          ∙ ap (listed e (some e.plaintext))
              (heard-InStep es _ _ (InStep-swap (length es) _ _ t.0) g.1))
  ]

  -- The sides that X3DH starts: the sender with the receiver's ratchet key, the receiver with the
  -- secret of that key. Each message is delivered before the next one is written, or it is lost; none is
  -- late, reordered or delivered twice. Then, whichever side writes each message and however many are
  -- lost, what arrives is read as it was written, if every fresh ratchet key differs from the one that
  -- it can replace and fewer than 2^32 messages are written.
  pub heard-written :
      (es : List Event) (shared ours theirs : Bytes)
      → length es < 4294967296
      → keys_fresh es
          (init_sender crypto ours shared (crypto.public_key theirs))
          (init_receiver crypto shared theirs)
        ≡ true
      → heard es
          (init_sender crypto ours shared (crypto.public_key theirs))
          (init_receiver crypto shared theirs)
        ≡ written es
  unfolding init_sender init_receiver advance
  heard-written es shared ours theirs l f =
      heard-InStep es _ _
        (record {
          sync = inl (record {
            back = record { knows = refl; behind = omega arith; chain = refl };
            ahead = record { unknown = refl; agrees = refl; chain = refl };
          });
          room_first = omega (arith, l);
          room_second = omega (arith, l);
        })
        f
