-- ===== src/Transport/Pool.antt =====
-- The pool stays within its limit, and what it can send.
use ephemera_social.Base.{
  ℕ, ◌+◌, ◌-◌, ◌≤◌, ◌≡◌, ◌≢◌, refl, List, [], ◌∷◌, false, ◌&&◌, ltb, same, list_ord, nat_ord, keep,
  map, Bytes, ok, arith, Option-cases, Bool-cases, inl, inr,
}
use ephemera_social.Map.{Map, get, insert, remove}
use ephemera_social.Map.Laws.{Values, Values-get, Values-insert, Values-remove}
use ephemera_social.Transport.{
  PeerConnection, ConnectionManager, new, PeerAddr, new_connection, is_active, active_of,
  connection_count, has_capacity, is_connected, add_connection, remove_connection, remove_all, send,
  send_to, cleanup_stale,
}

active-insert :
    (k : Bytes) (c : PeerConnection) (m : Map Bytes PeerConnection)
    → active_of (insert k c m) ≤ active_of m + 1
unfolding insert keep
active-insert k c [] = ground arith
active-insert k c ((j, d) ∷ m) = ground (arith, active-insert k c m)

active-remove : (k : Bytes) (m : Map Bytes PeerConnection) → active_of (remove k m) ≤ active_of m
unfolding remove keep
active-remove k [] = omega arith
active-remove k ((j, d) ∷ m) = ground (arith, active-remove k m)

-- A call of the manager.
pub data Call : Type 0 where
  add : (now : ℕ) → PeerAddr → Call
  drop_peer : Bytes → Call
  transmit : (now : ℕ) → Bytes → (data_len : ℕ) → Call
  clean : (now : ℕ) → Call

unfoldable pub perform : Call → ConnectionManager → ConnectionManager
unfolding add_connection remove_connection send_to cleanup_stale
perform (add now addr) s = (add_connection now addr s).0
perform (drop_peer p) s = remove_connection p s
perform (transmit now p n) s = (send_to now p n s).0
perform (clean now) s = cleanup_stale now s

unfoldable pub perform_all : List Call → ConnectionManager → ConnectionManager
unfolding perform
perform_all [] s = s
perform_all (c ∷ cs) s = perform_all cs (perform c s)

-- Within the limit, and no channel is open.
record IsClosedPool (limit : ℕ) (s : ConnectionManager) : Type 0 where
  fixed : s.max_connections ≡ limit
  within : active_of s.connections ≤ limit
  closed : Values (λ c. c.outbound_open ≡ false) s.connections

remove_all-pool :
    (limit : ℕ) (ps : List Bytes) (s : ConnectionManager)
    → IsClosedPool limit s
    → IsClosedPool limit (remove_all ps s)
unfolding remove_all remove_connection
remove_all-pool limit [] s v = v
remove_all-pool limit (p ∷ ps) s v = remove_all-pool limit ps _ (record {
  fixed = v.fixed;
  within = omega (arith, v.within, active-remove p s.connections);
  closed = Values-remove (λ c. c.outbound_open ≡ false) p s.connections v.closed;
})

add-pool :
    (limit now : ℕ) (addr : PeerAddr) (s : ConnectionManager)
    → IsClosedPool limit s
    → IsClosedPool limit (add_connection now addr s).0
unfolding add_connection has_capacity connection_count
add-pool limit now addr s v = elim (Bool-cases (same addr.node_id s.local_id)) [
  | inl e ↦ rw e v
  | inr e ↦ elim (Bool-cases (is_connected addr.node_id s)) [
    | inl f ↦ rw (e, f) v
    | inr f ↦ elim (Bool-cases (ltb (active_of s.connections) s.max_connections)) [
      | inr g ↦ rw (e, f, g) v
      | inl g ↦
          rw (e, f, g)
            (record {
              fixed = v.fixed;
              within = ground (
                arith,
                g,
                v.fixed,
                active-insert addr.node_id (new_connection now addr.node_id addr) s.connections,
              );
              closed =
                  Values-insert (λ c. c.outbound_open ≡ false) addr.node_id
                    (new_connection now addr.node_id addr) s.connections (closed_at_first now addr)
                    v.closed;
            })
    ]
  ]
]
  where
    closed_at_first :
        (now : ℕ) (addr : PeerAddr) → (new_connection now addr.node_id addr).outbound_open ≡ false
    closed_at_first now addr = refl

-- No send succeeds, and none changes the pool.
send-fails :
    (limit now : ℕ) (peer : Bytes) (n : ℕ) (s : ConnectionManager)
    → IsClosedPool limit s
    → ((send_to now peer n s).0 ≡ s) × ((send_to now peer n s).1 ≢ ok tt)
unfolding send_to send
send-fails limit now peer n s v = elim (Option-cases (get peer s.connections)) [
  | inl e ↦ ground (arith, e)
  | inr (c, e) ↦
      let shut = Values-get (λ d. d.outbound_open ≡ false) peer s.connections v.closed e in
      ground (arith, e, shut)
]

perform-pool :
    (limit : ℕ) (c : Call) (s : ConnectionManager)
    → IsClosedPool limit s
    → IsClosedPool limit (perform c s)
unfolding perform cleanup_stale
perform-pool limit (add now addr) s v = add-pool limit now addr s v
perform-pool limit (drop_peer p) s v = remove_all-pool limit (p ∷ []) s v
perform-pool limit (transmit now p n) s v = rw (send-fails limit now p n s v).0 v
perform-pool limit (clean now) s v =
    remove_all-pool limit
      (map (λ e. e.0)
        (keep (λ e. is_active e.1 && ltb s.idle_timeout (now - e.1.last_recv)) s.connections))
      s v

perform_all-pool :
    (limit : ℕ) (cs : List Call) (s : ConnectionManager)
    → IsClosedPool limit s
    → IsClosedPool limit (perform_all cs s)
unfolding perform_all
perform_all-pool limit [] s v = v
perform_all-pool limit (c ∷ cs) s v =
    perform_all-pool limit cs (perform c s) (perform-pool limit c s v)

new-pool : (limit idle size : ℕ) (me : Bytes) → IsClosedPool limit (new limit idle size me)
unfolding new keep
new-pool limit idle size me = record { fixed = refl; within = omega arith; closed = tt }

-- However connections are added, removed, used and cleaned up, a new pool never has more active
-- connections than its limit.
pub connection_count-le :
    (limit idle size : ℕ) (me : Bytes) (cs : List Call)
    → connection_count (perform_all cs (new limit idle size me)) ≤ limit
unfolding connection_count
connection_count-le limit idle size me cs =
    (perform_all-pool limit cs (new limit idle size me) (new-pool limit idle size me)).within

-- Nothing is ever sent: after any calls on a new pool every `send_to` ends in an error.
pub send_to-fails :
    (limit idle size now n : ℕ) (me peer : Bytes) (cs : List Call)
    → (send_to now peer n (perform_all cs (new limit idle size me))).1 ≢ ok tt
send_to-fails limit idle size now n me peer cs =
    (send-fails limit now peer n (perform_all cs (new limit idle size me))
      (perform_all-pool limit cs (new limit idle size me) (new-pool limit idle size me))).1
