-- ===== src/Lib.antt =====
-- Ephemera is a peer-to-peer social node: what its users publish expires, and what they say reaches
-- the others through gossip, a distributed hash table and mailboxes, with no server in between. This
-- library models the parts of its Rust crates that decide: which replica's state wins, which node
-- stores and finds what, who gets a message and how long it stays, and what moderation lets through.
--
-- The parts and their sources:
--
-- * Types (crates/ephemera-types/src): Types.Hlc is `HlcTimestamp` of timestamp.rs, one 64-bit word
--   of 48 bits of seconds and 16 bits of counter; Types.Ttl is `Ttl` with the checks of ttl.rs;
--   Types.NodeId is the 32-byte id of identity.rs with `xor_distance` and
--   `leading_zeros_distance`.
-- * Crdt (crates/ephemera-crdt/src): Crdt.Clock is `HybridClock` of clock.rs, Crdt.GCounter
--   gcounter.rs, Crdt.LwwRegister lwwregister.rs and Crdt.OrSet orset.rs. Each is a record with the
--   source's fields and one function for each method; `remove` of the set is `discard` here. The
--   clocks stamp what the registers hold.
-- * Dht (crates/ephemera-dht/src): Dht.Bucket and Dht.Routing are routing.rs, Dht.Record lib.rs,
--   Dht.Storage storage.rs (`get` is `lookup`, `remove` is `delete`) and Dht.Query query.rs. A query
--   takes its seeds from the routing table, which places nodes by the distance of Types.NodeId.
-- * Gossip (crates/ephemera-gossip/src): Gossip.Topic is topic.rs and the errors of lib.rs;
--   Gossip.Dedup, Gossip.Peers and Gossip.Engine are `MessageDedup`, `TopicState` and
--   `PlumTreeEngine` of plumtree.rs. The engine calls the other two in `receive_message`.
-- * Message (crates/ephemera-message/src): Message.DeadDrop is dead_drop.rs over the table that
--   crates/ephemera-store/src/metadata.rs creates, Message.Conversation conversation.rs and
--   Message.Request request.rs.
-- * Moderation (crates/ephemera-mod/src): Moderation.Report is report.rs, Moderation.Filter
--   filter.rs with the set of hashes of blocklist.rs.
-- * Social (crates/ephemera-social/src): Social.Graph is connection.rs, block.rs, store/connection.rs
--   and store/block.rs over the tables of crates/ephemera-store/src/metadata.rs (`remove` of a
--   connection is `disconnect`). A block takes away a connection and
--   keeps out the requests that the service takes; the ingest of crates/ephemera-node/src/message_ingest.rs
--   and background.rs enters requests past it, and is modelled beside it.
-- * Pow (two crates): Pow.Argon is crates/ephemera-crypto/src/pow.rs and Pow.Blake crates/ephemera-abuse/src/pow.rs,
--   two formats of proof-of-work stamps. Handles are paid for with the first.
-- * Handle (crates/ephemera-social/src): Handle.Format is handle_validation.rs and Handle.Registry
--   handle.rs, with the renewal of crates/ephemera-node/src/background.rs; what signs or verifies is in
--   Handle.Registry.Keyed, over the interface of Ed25519 in Signing.
-- * Protocol (crates/ephemera-protocol/src): Protocol.Version, Protocol.Envelope and Protocol.Codec are
--   version.rs, envelope.rs with the message types of messages.rs, and codec.rs.
-- * Media (crates/ephemera-media/src): Media.Chunker is chunker.rs.
-- * Ratchet (crates/ephemera-message/src): ratchet.rs, over an interface of its primitives, and
--   Ratchet.Sessions session.rs. Conversations run over a channel that delivers each message before the next
--   one is written, or loses it; keys of skipped messages are not kept, as in the source.
-- * Groups (two crates): Groups.Roles and Groups.Store are group.rs and store/group.rs of
--   crates/ephemera-social/src, Groups.Service the calls on groups of
--   crates/ephemera-node/src/services/social.rs, which check the caller's role before they reach the
--   store. A group's handle has the format of Handle.Format.
-- * Epoch (crates/ephemera-crypto/src): epoch.rs, the keys of the days and their destruction.
-- * Transport (crates/ephemera-transport/src): manager.rs and connection.rs, the pool of connections.
-- * Collector (crates/ephemera-store/src): gc.rs, a sweep over the tables of metadata.rs and the blobs.
--
-- Base, Map and Set hold what the parts share: numbers, orders, byte strings, the stable sort, and
-- maps and sets as association lists in the order of their keys. Rust's hash maps, tree maps and SQL
-- tables are all such maps; where the source iterates over a hash map, the order is that of the keys,
-- and no theorem depends on it except as a set. Operations on a `&mut self` take the state last and
-- return the new one, with the result beside it. An operation that reads a clock takes the reading as
-- an argument. Errors are values of a data type with the source's constructors; a message's text in
-- an error is left out. Numbers are unbounded, with the wrap-around or saturation of the source's
-- width written out where an operation can reach it; additions wrap as in a release build.
--
-- Two kinds of loops are bounded by a number: the search for a nonce by its rounds (`running`, `mining`
-- or no stamp stand for a search that goes on; generate_pow-verify says when enough rounds were given),
-- and the slices of the chunker by the length of the content, which is enough as each slice takes a
-- byte. All other loops are over a list that is given, or down from a number.
--
-- What other code provides is a parameter: the hashes of blake3 and Argon2id, Ed25519, X25519, HKDF and
-- the cipher, serde's bytes, the channels of tokio, the Unicode tables and the comparison of a quotient
-- of floating-point numbers. The laws that are asked of them stand with the parameters. Not modelled
-- are input and output (transports, the SQL engine itself, media decoding, configuration files), the
-- node's other calls and tasks, and the clients; the zeroing of memory; rate limits and reputation, which
-- calculate with floating-point numbers; and the lists and feeds, which are queries.
--
-- Tests runs the parts at small inputs and applies each result at an input that meets its conditions.
pub mod Base
pub mod Map
pub mod Set
pub mod Types
pub mod Crdt
pub mod Tests
pub mod Dht
pub mod Gossip
pub mod Message
pub mod Moderation
pub mod Social
pub mod Pow
pub mod Signing
pub mod Handle
pub mod Protocol
pub mod Media
pub mod Ratchet
pub mod Groups
pub mod Epoch
pub mod Transport
pub mod Collector
