-- ===== src/Protocol/Envelope.antt =====
-- crates/ephemera-protocol/src/envelope.rs, with the message types of messages.rs. The clock's reading
-- is an argument of `new`.
use ephemera_social.Base.{
  ℕ, zero, suc, ◌+◌, ◌-◌, min, ◌≡◌, Option, none, some, Bool, true, false, leb, if◌then◌else◌,
  Bytes, arith, ap, ◌∙◌, ◌<◌, Bool-cases, inl, inr,
}
use mathlib.Core.Path.{ap₂}
use ephemera_social.Protocol.Version.{ProtocolVersion, current}

pub data MessageType : Type 0 where
  post direct_message social_event dht_request dht_response : MessageType
  profile_update bloom_filter_update moderation_vote content_report : MessageType
  tombstone prekey_bundle peer_exchange chunk_request chunk_response : MessageType
  capability_handshake gossip_control ping pong : MessageType

pub record ProtocolEnvelope : Type 0 where
  pub version : ProtocolVersion
  pub sender_node_id : Bytes
  pub payload_type : MessageType
  pub payload_bytes : Bytes
  pub signature : Option Bytes
  pub hop_count : ℕ
  pub ttl : ℕ
  pub timestamp : ℕ
  pub compressed : Bool
  pub content_hash : Option Bytes

abbrev pub default_ttl : ℕ
default_ttl = 7

unfoldable pub new : (now : ℕ) → Bytes → MessageType → Bytes → ProtocolEnvelope
new now sender_node_id payload_type payload_bytes = record {
  version = current;
  sender_node_id = sender_node_id;
  payload_type = payload_type;
  payload_bytes = payload_bytes;
  signature = none;
  hop_count = 0;
  ttl = default_ttl;
  timestamp = now;
  compressed = false;
  content_hash = none;
}

unfoldable pub is_expired : ProtocolEnvelope → Bool
is_expired e = leb e.ttl e.hop_count

-- The new envelope, and whether it may be forwarded.
unfoldable pub increment_hop : ProtocolEnvelope → ProtocolEnvelope × Bool
increment_hop e =
    if leb e.ttl e.hop_count then (e, false) else (record e { hop_count = e.hop_count + 1 }, true)

unfoldable pub set_signature : Bytes → ProtocolEnvelope → ProtocolEnvelope
set_signature sig e = record e { signature = some sig }

-- An envelope on its way through so many nodes, and by how many of them it is forwarded.
unfoldable pub hops : ℕ → ProtocolEnvelope → ProtocolEnvelope × ℕ
unfolding increment_hop
hops zero e = (e, 0)
hops (suc n) e =
    let next = increment_hop e in
    let rest = hops n next.0 in (rest.0, (if next.1 then 1 else 0) + rest.1)

-- The envelope with this hop count, beside how many nodes have forwarded it.
abbrev counted : ProtocolEnvelope → ℕ → ℕ → ProtocolEnvelope × ℕ
counted e c k = (record e { hop_count = c }, k)

abbrev budget : ProtocolEnvelope → ℕ
budget e = e.ttl - e.hop_count

hops-counted :
    (n : ℕ) (e : ProtocolEnvelope)
    → hops n e ≡ counted e (e.hop_count + min n (budget e)) (min n (budget e))
unfolding hops
hops-counted zero e = ap₂ (counted e) (omega arith) (omega arith)
hops-counted (suc n) e = elim (Bool-cases (leb e.ttl e.hop_count)) [
  | inl spent ↦
      let over : budget e ≡ 0 = ground (arith, spent) in
      rw spent (
        ap (λ r. (r.0, 0 + r.1)) (hops-counted n e)
        ∙ ap₂ (counted e) (omega (arith, over)) (omega (arith, over)))
  | inr left ↦
      let next : ProtocolEnvelope = record e { hop_count = e.hop_count + 1 } in
      let room : e.hop_count < e.ttl = ground (arith, left) in
      rw left (
        ap (λ r. (r.0, 1 + r.1)) (hops-counted n next)
        ∙ ap₂ (counted e) (omega (arith, room)) (omega (arith, room)))
]

-- An envelope that meets `n` nodes is forwarded by as many of them as its hop budget, `ttl` less
-- `hop_count` and not below 0, still allows: by all of them, or by the first ones until the budget is
-- spent. Each of them adds one to the hop count, which is all that changes, and the envelope is expired
-- afterwards exactly if the nodes were as many as the budget or more.
pub hops-budget :
    (n : ℕ) (e : ProtocolEnvelope)
    → (hops n e ≡ (
      record e { hop_count = e.hop_count + min n (e.ttl - e.hop_count) },
      min n (e.ttl - e.hop_count),
    ))
      × (is_expired (hops n e).0 ≡ leb (e.ttl - e.hop_count) n)
unfolding is_expired
hops-budget n e = (hops-counted n e, rw (hops-counted n e) (ground arith))
