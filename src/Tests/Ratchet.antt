-- ===== src/Tests/Ratchet.antt =====
-- A conversation at small inputs, with stand-ins for the key agreement, HKDF and the cipher.
use ephemera_social.Base.{
  ℕ, ◌+◌, ◌≡◌, ◌⊎◌, refl, List, [], ◌∷◌, Option, none, some, true, false, Bytes, length, arith, ok,
  err, same, list_ord, nat_ord, if◌then◌else◌, ◌%◌, ◌==◌, ap,
}
use ephemera_social.Ratchet.{
  Primitives, MessageHeader, RatchetState, init_sender, init_receiver, decrypt_message,
}
use ephemera_social.Ratchet.Exchange.{Event, heard, written, keys_fresh, heard-written}
use ephemera_social.Ratchet.Sessions.{
  Table, receiving_state, load_session, decrypt_from_peer, decryption_failed,
  decrypt_from_peer-atomic,
}

first : Bytes → ℕ
first [] = 0
first (b ∷ bs) = b

-- The cipher marks a message with the first byte of its key.
open_marked : Bytes → Bytes → Option Bytes
open_marked key [] = none
open_marked key (mark ∷ m) = if mark == first key then some m else none

open_marked-marked : (key m : Bytes) → open_marked key (first key ∷ m) ≡ some m
unfolding open_marked
open_marked-marked key m = ground arith

shared_byte : (a b : Bytes) → first a + first (first b ∷ []) ≡ first b + first (first a ∷ [])
unfolding first
shared_byte a b = omega arith

stand_ins : Primitives
stand_ins = record {
  public_key = λ secret. first secret ∷ [];
  diffie_hellman = λ secret key. (first secret + first key) ∷ [];
  hkdf_derive = λ ikm info. ((first ikm + length info) % 256) ∷ [];
  seal = λ nonce key plaintext. first key ∷ plaintext;
  open_sealed = open_marked;
  agreement = λ a b. ap (λ n. n ∷ []) (shared_byte a b);
  open-seal = λ nonce key m. open_marked-marked key m;
}

abbrev shared : Bytes
shared = 50 ∷ []

abbrev ours : Bytes
ours = 3 ∷ []

abbrev theirs : Bytes
theirs = 4 ∷ []

-- The second answers; one message each way is lost.
abbrev events : List (Event stand_ins)
events =
    record { by_first = true; arrives = false; fresh = 20 ∷ []; nonce = []; plaintext = 1 ∷ [] }
    ∷ record { by_first = true; arrives = true; fresh = 21 ∷ []; nonce = []; plaintext = 2 ∷ [] }
    ∷ record { by_first = false; arrives = false; fresh = 22 ∷ []; nonce = []; plaintext = 3 ∷ [] }
    ∷ record { by_first = false; arrives = true; fresh = 23 ∷ []; nonce = []; plaintext = 4 ∷ [] }
    ∷ []

abbrev sender : RatchetState
sender = init_sender stand_ins ours shared (stand_ins.public_key theirs)

abbrev receiver : RatchetState
receiver = init_receiver stand_ins shared theirs

fresh_keys : keys_fresh stand_ins events sender receiver ≡ true
unfolding keys_fresh stand_ins first open_marked init_sender init_receiver
fresh_keys = refl

heard-written_example : heard stand_ins events sender receiver ≡ written stand_ins events
heard-written_example = heard-written stand_ins events shared ours theirs (omega arith) fresh_keys

-- A table with one session, and a message that its receiver does not accept.
abbrev conversation : Bytes
conversation = 8 ∷ []

abbrev table : Table
table =
    (
      conversation,
      record { peer_pubkey = ours; state = receiver; created_at = 10; updated_at = 10 },
    )
    ∷ []

abbrev header : MessageHeader
header = record { ratchet_key = 3 ∷ []; message_number = 0; previous_chain_length = 0 }

has_state : receiving_state stand_ins none none (load_session conversation table) ≡ ok receiver
unfolding load_session
has_state = refl

decrypt_from_peer-atomic_example :
    (((decrypt_message stand_ins [] header [] receiver).1 ≡ none)
      × (decrypt_from_peer stand_ins 20 conversation ours [] none none header [] table
          ≡ (table, err decryption_failed)))
    ⊎ ((m : Bytes) × ((decrypt_message stand_ins [] header [] receiver).1 ≡ some m)
        × ((decrypt_from_peer stand_ins 20 conversation ours [] none none header [] table).1 ≡ ok m)
        × (load_session conversation
              (decrypt_from_peer stand_ins 20 conversation ours [] none none header [] table).0
            ≡ (if same conversation conversation
                then some (decrypt_message stand_ins [] header [] receiver).0
                else load_session conversation table)))
decrypt_from_peer-atomic_example =
    decrypt_from_peer-atomic stand_ins 20 conversation conversation ours [] none none header []
      receiver table has_state
