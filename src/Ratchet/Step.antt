-- ===== src/Ratchet/Step.antt =====
-- One message: what is sent can be read, and the two sides stay in step.
use ephemera_social.Base.{
  ℕ, zero, suc, ◌+◌, ◌-◌, ◌≤◌, ◌<◌, ◌≡◌, refl, sym, ap, ◌∙◌, some, true, false, list_ord, nat_ord,
  list_self, Bytes, arith, as_u32,
}
use ephemera_social.Ratchet.{
  Primitives, RatchetState, kdf_rk, kdf_ck, encrypt_message, decrypt_message, dh_ratchet_step, skip,
  needs_step, open_next,
}

module _ (crypto : Primitives) where
  -- A chain key, so many messages later.
  unfoldable pub advance : ℕ → Bytes → Bytes
  advance zero ck = ck
  advance (suc n) ck = advance n (kdf_ck crypto ck).0

  advance-suc : (n : ℕ) (ck : Bytes) → (kdf_ck crypto (advance n ck)).0 ≡ advance (suc n) ck
  unfolding advance
  advance-suc zero ck = refl
  advance-suc (suc n) ck = advance-suc n (kdf_ck crypto ck).0

  advance-none : (n : ℕ) (ck : Bytes) → n ≡ 0 → ck ≡ advance n ck
  unfolding advance
  advance-none n ck h = sym (ap (λ k. advance k ck) h)

  skip-advance :
      (n : ℕ) (s : RatchetState)
      → skip crypto n s
        ≡ record s { recv_chain_key = advance n s.recv_chain_key; recv_count = s.recv_count + n }
  unfolding skip advance
  skip-advance zero s = ground arith
  skip-advance (suc n) s = ground (
    arith,
    skip-advance n (record s {
      recv_chain_key = (kdf_ck crypto s.recv_chain_key).0;
      recv_count = s.recv_count + 1;
    }),
  )

  -- What the first has sent, the second can follow: it knows the key, and the chains meet.
  pub record Stream (sender receiver : RatchetState) : Type 0 where
    pub knows : receiver.recv_ratchet_pubkey ≡ some (crypto.public_key sender.send_ratchet_secret)
    pub behind : receiver.recv_count ≤ sender.send_count
    pub chain :
        sender.send_chain_key
        ≡ advance (sender.send_count - receiver.recv_count) receiver.recv_chain_key

  -- The first has made the last step, which the second will follow on the next message.
  pub record Ahead (x y : RatchetState) : Type 0 where
    pub unknown : needs_step y.recv_ratchet_pubkey (crypto.public_key x.send_ratchet_secret) ≡ true
    pub agrees :
        x.root_key
        ≡ (kdf_rk crypto y.root_key (
            crypto.diffie_hellman x.send_ratchet_secret
              (crypto.public_key y.send_ratchet_secret))).0
    pub chain :
        x.send_chain_key
        ≡ advance x.send_count
            (kdf_rk crypto y.root_key (
              crypto.diffie_hellman x.send_ratchet_secret
                (crypto.public_key y.send_ratchet_secret))).1

  pub record Sync (x y : RatchetState) : Type 0 where
    pub back : Stream y x
    pub ahead : Ahead x y

  pub sent-Stream :
      (nonce m : Bytes) (x y : RatchetState)
      → x.send_count + 1 < 4294967296
      → Stream x y
      → Stream (encrypt_message crypto nonce m x).0 y
  unfolding encrypt_message
  sent-Stream nonce m x y b s = record {
    knows = s.knows;
    behind = omega (arith, s.behind, b);
    chain =
        ap (λ c. (kdf_ck crypto c).0) s.chain
        ∙ advance-suc (x.send_count - y.recv_count) y.recv_chain_key
        ∙ ap (λ n. advance n y.recv_chain_key) (omega (arith, s.behind, b));
  }

  pub sent-Ahead :
      (nonce m : Bytes) (x y : RatchetState)
      → x.send_count + 1 < 4294967296
      → Ahead x y
      → Ahead (encrypt_message crypto nonce m x).0 y
  unfolding encrypt_message
  sent-Ahead nonce m x y b s = record {
    unknown = s.unknown;
    agrees = s.agrees;
    chain =
        ap (λ c. (kdf_ck crypto c).0) s.chain
        ∙ advance-suc x.send_count _
        ∙ ap
            (λ n.
              advance n
                (kdf_rk crypto y.root_key (
                  crypto.diffie_hellman x.send_ratchet_secret
                    (crypto.public_key y.send_ratchet_secret))).1)
            (omega (arith, b));
  }

  -- A receiver whose chain reaches the message's opens it.
  open_next-opens :
      (nonce m : Bytes) (n : ℕ) (r : RatchetState)
      → r.recv_count ≤ n
      → n + 1 < 4294967296
      → open_next crypto
          (crypto.seal nonce (kdf_ck crypto (advance (n - r.recv_count) r.recv_chain_key)).1 m)
          (skip crypto (n - r.recv_count) r)
        ≡ (
          record r {
            recv_chain_key = advance (suc (n - r.recv_count)) r.recv_chain_key;
            recv_count = n + 1;
          },
          some m,
        )
  open_next-opens nonce m n r l b = rw (skip-advance (n - r.recv_count) r) (λ i. (
    record r {
      recv_chain_key = advance-suc (n - r.recv_count) r.recv_chain_key i;
      recv_count = count i;
    },
    crypto.open-seal nonce (kdf_ck crypto (advance (n - r.recv_count) r.recv_chain_key)).1 m i,
  ))
    where
      count : as_u32 ((r.recv_count + (n - r.recv_count)) + 1) ≡ n + 1
      count = omega (arith, l, b)

  -- The receiver behind the sender's next message.
  abbrev pub followed : RatchetState → RatchetState → RatchetState
  followed x y = record y {
    recv_chain_key = advance (suc (x.send_count - y.recv_count)) y.recv_chain_key;
    recv_count = x.send_count + 1;
  }

  -- What a receiver does with the next message of a sender that it can follow.
  follow :
      (fresh nonce m : Bytes) (x y : RatchetState)
      → x.send_count + 1 < 4294967296
      → Stream x y
      → (decrypt_message crypto fresh
            (encrypt_message crypto nonce m x).1
            (encrypt_message crypto nonce m x).2
            y
          ≡ (followed x y, some m))
        × Stream (encrypt_message crypto nonce m x).0 (followed x y)
  unfolding encrypt_message decrypt_message
  follow fresh nonce m x y b s =
      let no_step : needs_step y.recv_ratchet_pubkey (crypto.public_key x.send_ratchet_secret)
          ≡ false =
        ground (arith, s.knows, list_self {A = ℕ} (crypto.public_key x.send_ratchet_secret)) in
      (
        rw (no_step, s.chain) (open_next-opens nonce m x.send_count y s.behind b),
        record {
          knows = s.knows;
          behind = omega (arith, b);
          chain =
              ap (λ c. (kdf_ck crypto c).0) s.chain
              ∙ advance-suc (x.send_count - y.recv_count) y.recv_chain_key
              ∙ advance-none _ _ (omega (arith, b));
        },
      )

  -- The receiver makes the step of a sender that is ahead.
  step-Stream :
      (fresh : Bytes) (x y : RatchetState)
      → Ahead x y
      → Stream x (dh_ratchet_step crypto fresh (crypto.public_key x.send_ratchet_secret) y)
  unfolding dh_ratchet_step
  step-Stream fresh x y a = record {
    knows = refl;
    behind = omega arith;
    chain =
        a.chain
        ∙ ap (λ d. advance x.send_count (kdf_rk crypto y.root_key d).1)
            (crypto.agreement x.send_ratchet_secret y.send_ratchet_secret)
        ∙ ap
            (λ n.
              advance n
                (dh_ratchet_step crypto fresh (crypto.public_key x.send_ratchet_secret)
                  y).recv_chain_key)
            (omega arith);
  }

  abbrev pub stepped : (fresh : Bytes) → RatchetState → RatchetState → RatchetState
  stepped fresh x y = dh_ratchet_step crypto fresh (crypto.public_key x.send_ratchet_secret) y

  step-first :
      (fresh nonce m : Bytes) (x y : RatchetState)
      → needs_step y.recv_ratchet_pubkey (crypto.public_key x.send_ratchet_secret) ≡ true
      → decrypt_message crypto fresh
          (encrypt_message crypto nonce m x).1
          (encrypt_message crypto nonce m x).2
          y
        ≡ decrypt_message crypto fresh
            (encrypt_message crypto nonce m x).1
            (encrypt_message crypto nonce m x).2
            (stepped fresh x y)
  unfolding encrypt_message decrypt_message
  step-first fresh nonce m x y u =
      let none_left : needs_step (some (crypto.public_key x.send_ratchet_secret))
            (crypto.public_key x.send_ratchet_secret)
          ≡ false =
        ground (arith, list_self {A = ℕ} (crypto.public_key x.send_ratchet_secret)) in
      rw (u, none_left) refl

  pub deliver-ahead :
      (fresh nonce m : Bytes) (x y : RatchetState)
      → x.send_count + 1 < 4294967296
      → needs_step (some (crypto.public_key y.send_ratchet_secret)) (crypto.public_key fresh) ≡ true
      → Sync x y
      → (decrypt_message crypto fresh
            (encrypt_message crypto nonce m x).1
            (encrypt_message crypto nonce m x).2
            y
          ≡ (followed x (stepped fresh x y), some m))
        × Sync (followed x (stepped fresh x y)) (encrypt_message crypto nonce m x).0
  unfolding encrypt_message dh_ratchet_step advance
  deliver-ahead fresh nonce m x y b u s =
      let f = follow fresh nonce m x (stepped fresh x y) b (step-Stream fresh x y s.ahead) in
      (
        step-first fresh nonce m x y s.ahead.unknown ∙ f.0,
        record {
          back = f.1;
          ahead = record {
            unknown = ap (λ o. needs_step o (crypto.public_key fresh)) s.back.knows ∙ u;
            agrees = root;
            chain = chains;
          };
        },
      )
    where
      joint :
          (kdf_rk crypto y.root_key (
            crypto.diffie_hellman y.send_ratchet_secret
              (crypto.public_key x.send_ratchet_secret))).0
          ≡ x.root_key
      joint =
          ap (λ d. (kdf_rk crypto y.root_key d).0)
            (crypto.agreement y.send_ratchet_secret x.send_ratchet_secret)
          ∙ sym s.ahead.agrees

      root :
          (stepped fresh x y).root_key
          ≡ (kdf_rk crypto x.root_key
              (crypto.diffie_hellman fresh (crypto.public_key x.send_ratchet_secret))).0
      root =
          ap
            (λ r.
              (kdf_rk crypto r
                (crypto.diffie_hellman fresh (crypto.public_key x.send_ratchet_secret))).0)
            joint

      chains :
          (stepped fresh x y).send_chain_key
          ≡ advance 0
              (kdf_rk crypto x.root_key
                (crypto.diffie_hellman fresh (crypto.public_key x.send_ratchet_secret))).1
      chains =
          ap
            (λ r.
              (kdf_rk crypto r
                (crypto.diffie_hellman fresh (crypto.public_key x.send_ratchet_secret))).1)
            joint

  pub deliver-back :
      (fresh nonce m : Bytes) (x y : RatchetState)
      → y.send_count + 1 < 4294967296
      → Sync x y
      → (decrypt_message crypto fresh
            (encrypt_message crypto nonce m y).1
            (encrypt_message crypto nonce m y).2
            x
          ≡ (followed y x, some m))
        × Sync (followed y x) (encrypt_message crypto nonce m y).0
  unfolding encrypt_message
  deliver-back fresh nonce m x y b s =
      let f = follow fresh nonce m y x b s.back in
      (
        f.0,
        record {
          back = f.1;
          ahead = record {
            unknown = s.ahead.unknown;
            agrees = s.ahead.agrees;
            chain = s.ahead.chain;
          };
        },
      )
