-- ===== src/Core.antt =====
-- core/: the task state machine, the policy and the orchestrator.
pub mod StateMachine
pub mod Policy
pub mod Orchestrator
