-- ===== src/Tests.antt =====
-- Runs of the model on small inputs, and each theorem with hypotheses at an input that meets them.
mod Types
mod Pow
mod Handle
mod Wire
mod Groups
mod Epoch
mod Transport
mod Collector
mod Ratchet
mod Crdt
mod Dht
mod Gossip
mod Message
mod Moderation
mod Social
