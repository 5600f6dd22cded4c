-- ===== src/Core/StateMachine.antt =====
-- core/state-machine.ts. `none` is the throw of `InvalidTransitionError` (core/errors.ts).
pub mod Paths
use agent_supervisor_runtime.Base.{Bool, true, false, Option, none, some}
pub use agent_supervisor_runtime.Contracts.State.{
  RunState, created, ready, dispatched, running, retry_ready, result_ready, reviewing,
  revision_ready, completed, blocked, failed,
}

pub data StateEvent : Type 0 where
  validate dispatch start worker_succeeded worker_retry worker_failed : StateEvent
  request_review review_pass review_revise block user_resolved : StateEvent

-- The table `transitions` and its lookup.
unfoldable pub transition : RunState → StateEvent → Option RunState
transition created validate = some ready
transition created block = some blocked
transition ready dispatch = some dispatched
transition ready block = some blocked
transition dispatched start = some running
transition dispatched block = some blocked
transition running worker_succeeded = some result_ready
transition running worker_retry = some retry_ready
transition running worker_failed = some failed
transition running block = some blocked
transition retry_ready dispatch = some dispatched
transition retry_ready block = some blocked
transition result_ready request_review = some reviewing
transition result_ready block = some blocked
transition reviewing review_pass = some completed
transition reviewing review_revise = some revision_ready
transition reviewing block = some blocked
transition revision_ready dispatch = some dispatched
transition revision_ready block = some blocked
transition blocked user_resolved = some ready
transition _ _ = none

-- The set `TERMINAL` of core/orchestrator.ts.
abbrev pub is_terminal : RunState → Bool
is_terminal completed = true
is_terminal blocked = true
is_terminal failed = true
is_terminal _ = false
