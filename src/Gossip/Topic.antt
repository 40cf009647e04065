-- ===== src/Gossip/Topic.antt =====
-- crates/ephemera-gossip/src/topic.rs and the error type of lib.rs: what the engine passes around.
use ephemera_social.Base.{ℕ, Bytes}

-- A BLAKE3 hash, as it comes from the hash function.
abbrev pub GossipTopic : Type 0
GossipTopic = Bytes

pub record GossipMessage : Type 0 where
  pub topic : GossipTopic
  pub payload : Bytes
  pub content_hash : Bytes
  pub source_node : Bytes

-- The errors of `GossipError` that the engine returns.
pub data GossipError : Type 0 where
  subscription_limit_reached : (current max : ℕ) → GossipError
  not_subscribed : GossipTopic → GossipError
