-- ===== src/Companion.antt =====
-- The companion: a browser page of its own that carries the conversation.
pub mod Page
pub mod State
pub mod Ready
pub mod Connecting
pub mod Exchange
