-- ===== src/Message.antt =====
-- crates/ephemera-message: the mailboxes for offline recipients, the list of conversations, and the
-- requests of strangers.
pub mod DeadDrop
pub mod Conversation
pub mod Request
