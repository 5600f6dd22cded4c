-- ===== src/Context.antt =====
-- context: what a supervisor may read of a workspace, in bounded pieces.
pub mod Contracts
pub mod Text
pub mod Summary
pub mod Broker
pub mod Policy
