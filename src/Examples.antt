-- ===== src/Examples.antt =====
-- The theorems at concrete inputs.
mod Core
mod Conversations
mod Context
mod Transports
mod Frames
mod Chatgpt
mod Companion
mod NativeHost
mod Policy
