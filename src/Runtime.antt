-- ===== src/Runtime.antt =====
-- The runtime process: its frames, the session with a supervisor.
pub mod Contracts
pub mod Frames
pub mod Session
