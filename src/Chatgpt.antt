-- ===== src/Chatgpt.antt =====
-- chatgpt: the supervisor behind a conversation.
pub mod Envelopes
pub mod Packet
pub mod Adapter
