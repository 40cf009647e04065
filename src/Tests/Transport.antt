-- ===== src/Tests/Transport.antt =====
-- The pool of connections at small inputs.
use ephemera_social.Base.{◌≢◌, ◌≤◌, List, [], ◌∷◌, Bytes, ok}
use ephemera_social.Transport
use ephemera_social.Transport.{PeerAddr, connection_count, send_to}
use ephemera_social.Transport.Pool.{
  Call, add, clean, perform_all, connection_count-le, send_to-fails,
}

abbrev peer : Bytes
peer = 2 ∷ []

abbrev calls : List Call
calls = add 10 (record { node_id = peer; addresses = [] }) ∷ clean 20 ∷ []

connection_count-le_example :
    connection_count (perform_all calls (Transport.new 1 60 1024 (1 ∷ []))) ≤ 1
connection_count-le_example = connection_count-le 1 60 1024 (1 ∷ []) calls

send_to-fails_example :
    (send_to 30 peer 5 (perform_all calls (Transport.new 1 60 1024 (1 ∷ [])))).1 ≢ ok tt
send_to-fails_example = send_to-fails 1 60 1024 30 5 (1 ∷ []) peer calls
