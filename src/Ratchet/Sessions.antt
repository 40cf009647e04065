-- ===== src/Ratchet/Sessions.antt =====
-- crates/ephemera-message/src/session.rs: the ratchets of all conversations, over the table of
-- sessions. What X3DH gives for a new session is an argument.
use ephemera_social.Base.{
  ℕ, ◌≡◌, ◌⊎◌, inl, inr, refl, Option, none, some, Bool, true, false, if◌then◌else◌, same, list_ord,
  nat_ord, Bytes, Result, ok, err, arith, Option-cases,
}
use ephemera_social.Map.{Map, get, insert}
use ephemera_social.Map.Laws.{get-insert}
use ephemera_social.Ratchet.{
  Primitives, MessageHeader, RatchetState, init_sender, init_receiver, encrypt_message,
  decrypt_message,
}

-- A row of `ratchet_sessions`; `from_persisted` gives back the state that was saved.
pub record Row : Type 0 where
  pub peer_pubkey : Bytes
  pub state : RatchetState
  pub created_at : ℕ
  pub updated_at : ℕ

abbrev pub Table : Type 0
Table = Map Bytes Row

pub data SessionError : Type 0 where
  no_prekey_bundle no_shared_secret no_ratchet_key decryption_failed : SessionError

abbrev pub state_of : Option Row → Option RatchetState
state_of none = none
state_of (some row) = some row.state

unfoldable pub load_session : Bytes → Table → Option RatchetState
unfolding get
load_session conversation table = state_of (get conversation table)

-- On a conflict the row keeps its peer and the instant of its creation.
abbrev pub upsert : ℕ → Bytes → RatchetState → Option Row → Row
upsert now peer_pubkey state none = record {
  peer_pubkey = peer_pubkey;
  state = state;
  created_at = now;
  updated_at = now;
}
upsert now peer_pubkey state (some row) = record row { state = state; updated_at = now }

unfoldable pub save_session : ℕ → Bytes → Bytes → RatchetState → Table → Table
unfolding get insert
save_session now conversation peer_pubkey state table =
    insert conversation (upsert now peer_pubkey state (get conversation table)) table

unfoldable pub has_session : Bytes → Table → Bool
unfolding load_session
has_session conversation table = elim (load_session conversation table) [
  | none ↦ false
  | some _ ↦ true
]

module _ (crypto : Primitives) where
  -- The state to write with: the session's, or a new one from the shared secret of X3DH and the
  -- recipient's signed prekey.
  abbrev pub sending_state :
      (fresh : Bytes) → Option (Bytes × Bytes) → Option RatchetState → Option RatchetState
  sending_state fresh x3dh (some state) = some state
  sending_state fresh none none = none
  sending_state fresh (some (shared, prekey)) none = some (init_sender crypto fresh shared prekey)

  abbrev pub send_with :
      (now : ℕ) (conversation peer_pubkey nonce plaintext : Bytes)
      → Option RatchetState
      → Table
      → Table × Result (MessageHeader × Bytes) SessionError
  send_with now conversation peer_pubkey nonce plaintext none table = (table, err no_prekey_bundle)
  send_with now conversation peer_pubkey nonce plaintext (some state) table =
      let sent = encrypt_message crypto nonce plaintext state in
      (save_session now conversation peer_pubkey sent.0 table, ok (sent.1, sent.2))

  unfoldable pub encrypt_for_peer :
      (now : ℕ) (conversation peer_pubkey fresh nonce : Bytes) (x3dh : Option (Bytes × Bytes))
      (plaintext : Bytes)
      → Table
      → Table × Result (MessageHeader × Bytes) SessionError
  unfolding load_session save_session
  encrypt_for_peer now conversation peer_pubkey fresh nonce x3dh plaintext table =
      send_with now conversation peer_pubkey nonce plaintext
        (sending_state fresh x3dh (load_session conversation table)) table

  abbrev pub receiving_state :
      (our_ratchet_key shared_secret : Option Bytes)
      → Option RatchetState
      → Result RatchetState SessionError
  receiving_state our_ratchet_key shared_secret (some state) = ok state
  receiving_state our_ratchet_key none none = err no_shared_secret
  receiving_state none (some secret) none = err no_ratchet_key
  receiving_state (some key) (some secret) none = ok (init_receiver crypto secret key)

  -- The state is saved only where the message opens.
  abbrev pub settle :
      (now : ℕ) (conversation peer_pubkey : Bytes)
      → RatchetState × Option Bytes
      → Table
      → Table × Result Bytes SessionError
  settle now conversation peer_pubkey (state, none) table = (table, err decryption_failed)
  settle now conversation peer_pubkey (state, some m) table =
      (save_session now conversation peer_pubkey state table, ok m)

  abbrev pub receive_with :
      (now : ℕ) (conversation peer_pubkey fresh : Bytes)
      → MessageHeader
      → Bytes
      → Result RatchetState SessionError
      → Table
      → Table × Result Bytes SessionError
  receive_with now conversation peer_pubkey fresh header ciphertext (err e) table = (table, err e)
  receive_with now conversation peer_pubkey fresh header ciphertext (ok state) table =
      settle now conversation peer_pubkey (decrypt_message crypto fresh header ciphertext state)
        table

  unfoldable pub decrypt_from_peer :
      (now : ℕ) (conversation peer_pubkey fresh : Bytes)
      (our_ratchet_key shared_secret : Option Bytes)
      → MessageHeader
      → Bytes
      → Table
      → Table × Result Bytes SessionError
  unfolding load_session save_session
  decrypt_from_peer now conversation peer_pubkey fresh our_ratchet_key shared_secret header
        ciphertext table =
      receive_with now conversation peer_pubkey fresh header ciphertext
        (receiving_state our_ratchet_key shared_secret (load_session conversation table)) table

  saved :
      (now : ℕ) (conversation other peer_pubkey : Bytes) (state : RatchetState) (table : Table)
      → load_session other (save_session now conversation peer_pubkey state table)
        ≡ (if same other conversation then some state else load_session other table)
  unfolding save_session load_session
  saved now conversation other peer_pubkey state table =
      elim (Option-cases (get conversation table)) [
        | inl e ↦
            ground
              (arith, e, get-insert other conversation (upsert now peer_pubkey state none) table)
        | inr (row, e) ↦ ground (
          arith,
          e,
          get-insert other conversation (upsert now peer_pubkey state (some row)) table,
        )
      ]

  -- How a call ends: refused, with the table untouched, or accepted.
  abbrev Ends :
      (conversation other : Bytes)
      → RatchetState × Option Bytes
      → Table
      → Table × Result Bytes SessionError
      → Type 0
  Ends conversation other opened table r =
      ((opened.1 ≡ none) × (r ≡ (table, err decryption_failed)))
      ⊎ ((m : Bytes) × (opened.1 ≡ some m)
          × (r.1 ≡ ok m)
          × (load_session other r.0
              ≡ (if same other conversation then some opened.0 else load_session other table)))

  settle-Ends :
      (now : ℕ) (conversation other peer_pubkey : Bytes) (opened : RatchetState × Option Bytes)
      (table : Table)
      → Ends conversation other opened table (settle now conversation peer_pubkey opened table)
  settle-Ends now conversation other peer_pubkey (state, none) table = inl (refl, refl)
  settle-Ends now conversation other peer_pubkey (state, some m) table =
      inr (m, refl, refl, saved now conversation other peer_pubkey state table)

  -- Where there is a state to read with, a message that does not open leaves every session as it was;
  -- one that opens is given back and moves on the ratchet of its conversation as `decrypt_message`
  -- does, and no other.
  pub decrypt_from_peer-atomic :
      (now : ℕ) (conversation other peer_pubkey fresh : Bytes)
      (our_ratchet_key shared_secret : Option Bytes) (header : MessageHeader) (ciphertext : Bytes)
      (state : RatchetState) (table : Table)
      → receiving_state our_ratchet_key shared_secret (load_session conversation table) ≡ ok state
      → Ends conversation other (decrypt_message crypto fresh header ciphertext state) table (
          decrypt_from_peer now conversation peer_pubkey fresh our_ratchet_key shared_secret header
            ciphertext table)
  unfolding decrypt_from_peer
  decrypt_from_peer-atomic now conversation other peer_pubkey fresh our_ratchet_key shared_secret
        header ciphertext state table e =
      rw e (
        settle-Ends now conversation other peer_pubkey
          (decrypt_message crypto fresh header ciphertext state) table)
