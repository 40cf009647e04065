-- ===== src/Ratchet.antt =====
-- crates/ephemera-message/src/ratchet.rs: the double ratchet of a conversation. The key agreement, the
-- key derivation and the cipher are parameters; a fresh secret and a nonce are arguments.
pub mod Step
pub mod Exchange
pub mod Sessions
use ephemera_social.Base.{
  ℕ, zero, suc, ◌+◌, ◌-◌, ◌%◌, ◌≡◌, List, ◌++◌, Option, none, some, Bool, true, false, not,
  if◌then◌else◌, same, list_ord, nat_ord, Bytes, codes, replicate, as_u32,
}

pub record Primitives : Type 0 where
  -- X25519: the public key of a secret, and the shared secret of a secret and a public key.
  pub public_key : Bytes → Bytes
  pub diffie_hellman : (secret key : Bytes) → Bytes
  -- HKDF, from key material and an info string; 32 bytes are always derived.
  pub hkdf_derive : (ikm info : Bytes) → Bytes
  -- The authenticated cipher, with the nonce that `seal` draws.
  pub seal : (nonce key plaintext : Bytes) → Bytes
  pub open_sealed : (key ciphertext : Bytes) → Option Bytes
  -- Both sides agree, and what was sealed opens under the same key.
  pub agreement : (a b : Bytes) → diffie_hellman a (public_key b) ≡ diffie_hellman b (public_key a)
  pub open-seal : (nonce key m : Bytes) → open_sealed key (seal nonce key m) ≡ some m

abbrev pub chain_info : Bytes
chain_info = codes "ephemera-chain-v1"

abbrev pub msg_key_info : Bytes
msg_key_info = codes "ephemera-msg-v1"

abbrev pub ratchet_info : Bytes
ratchet_info = codes "ephemera-ratchet-v1"

pub record MessageHeader : Type 0 where
  pub ratchet_key : Bytes
  pub message_number : ℕ
  pub previous_chain_length : ℕ

-- The ratchet key pair is its secret.
pub record RatchetState : Type 0 where
  pub root_key : Bytes
  pub send_chain_key : Bytes
  pub recv_chain_key : Bytes
  pub send_ratchet_secret : Bytes
  pub recv_ratchet_pubkey : Option Bytes
  pub send_count : ℕ
  pub recv_count : ℕ
  pub previous_send_count : ℕ

-- Whether the sender's ratchet key is another than the last one.
abbrev pub needs_step : Option Bytes → Bytes → Bool
needs_step none key = true
needs_step (some existing) key = not (same existing key)

module _ (crypto : Primitives) where
  -- The new root key and the chain key.
  abbrev pub kdf_rk : (root_key dh_output : Bytes) → Bytes × Bytes
  kdf_rk root_key dh_output =
      let ikm = root_key ++ dh_output in
      (crypto.hkdf_derive ikm ratchet_info, crypto.hkdf_derive ikm chain_info)

  -- The next chain key and the message key.
  abbrev pub kdf_ck : (chain_key : Bytes) → Bytes × Bytes
  kdf_ck chain_key =
      (crypto.hkdf_derive chain_key chain_info, crypto.hkdf_derive chain_key msg_key_info)

  unfoldable pub init_sender : (our_ratchet shared_secret their_ratchet_key : Bytes) → RatchetState
  init_sender our_ratchet shared_secret their_ratchet_key =
      let derived = kdf_rk shared_secret (crypto.diffie_hellman our_ratchet their_ratchet_key) in
      record {
        root_key = derived.0;
        send_chain_key = derived.1;
        recv_chain_key = replicate 32 0;
        send_ratchet_secret = our_ratchet;
        recv_ratchet_pubkey = some their_ratchet_key;
        send_count = 0;
        recv_count = 0;
        previous_send_count = 0;
      }

  unfoldable pub init_receiver : (shared_secret our_ratchet_key : Bytes) → RatchetState
  init_receiver shared_secret our_ratchet_key = record {
    root_key = shared_secret;
    send_chain_key = replicate 32 0;
    recv_chain_key = replicate 32 0;
    send_ratchet_secret = our_ratchet_key;
    recv_ratchet_pubkey = none;
    send_count = 0;
    recv_count = 0;
    previous_send_count = 0;
  }

  unfoldable pub public_ratchet_key : RatchetState → Bytes
  public_ratchet_key s = crypto.public_key s.send_ratchet_secret

  -- The state afterwards, the header and the ciphertext.
  unfoldable pub encrypt_message :
      (nonce plaintext : Bytes) → RatchetState → RatchetState × MessageHeader × Bytes
  encrypt_message nonce plaintext s =
      let keys = kdf_ck s.send_chain_key in
      (
        record s { send_chain_key = keys.0; send_count = as_u32 (s.send_count + 1) },
        record {
          ratchet_key = crypto.public_key s.send_ratchet_secret;
          message_number = s.send_count;
          previous_chain_length = s.previous_send_count;
        },
        crypto.seal nonce keys.1 plaintext,
      )

  unfoldable pub dh_ratchet_step :
      (fresh their_new_ratchet_key : Bytes) → RatchetState → RatchetState
  dh_ratchet_step fresh their_new_ratchet_key s =
      let received =
        kdf_rk s.root_key (crypto.diffie_hellman s.send_ratchet_secret their_new_ratchet_key) in
      let sending = kdf_rk received.0 (crypto.diffie_hellman fresh their_new_ratchet_key) in
      record s {
        previous_send_count = s.send_count;
        send_count = 0;
        recv_count = 0;
        recv_ratchet_pubkey = some their_new_ratchet_key;
        root_key = sending.0;
        recv_chain_key = received.1;
        send_ratchet_secret = fresh;
        send_chain_key = sending.1;
      }

  -- The loop that skips messages, so many times.
  unfoldable pub skip : ℕ → RatchetState → RatchetState
  skip zero s = s
  skip (suc n) s =
      skip n
        (record s { recv_chain_key = (kdf_ck s.recv_chain_key).0; recv_count = s.recv_count + 1 })

  -- The receive chain after the step and the skips: the message's key is derived, then opened.
  abbrev pub open_next : (ciphertext : Bytes) → RatchetState → RatchetState × Option Bytes
  open_next ciphertext s =
      let keys = kdf_ck s.recv_chain_key in
      (
        record s { recv_chain_key = keys.0; recv_count = as_u32 (s.recv_count + 1) },
        crypto.open_sealed keys.1 ciphertext,
      )

  abbrev pub after_step : Bool → (fresh key : Bytes) → RatchetState → RatchetState
  after_step step fresh key s = if step then dh_ratchet_step fresh key s else s

  -- `none` where the ciphertext does not open; the state has moved on also then.
  unfoldable pub decrypt_message :
      (fresh : Bytes)
      → MessageHeader
      → (ciphertext : Bytes) → RatchetState
      → RatchetState × Option Bytes
  unfolding dh_ratchet_step skip
  decrypt_message fresh header ciphertext s =
      let stepped =
        after_step (needs_step s.recv_ratchet_pubkey header.ratchet_key) fresh header.ratchet_key
          s in
      open_next ciphertext (skip (header.message_number - stepped.recv_count) stepped)
