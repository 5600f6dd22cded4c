-- ===== src/Contracts/State.antt =====
-- contracts/state.ts.
use agent_supervisor_runtime.Base.{ℕ, String, Bool, ◌&&◌, Option}
use agent_supervisor_runtime.Contracts.Task.{is_text}
use agent_supervisor_runtime.Contracts.Result.{WorkerStatus}

pub data RunState : Type 0 where
  created ready dispatched running retry_ready result_ready reviewing : RunState
  revision_ready completed blocked failed : RunState

pub record TaskRecord : Type 0 where
  pub task_id : String
  pub project_id : String
  pub state : RunState
  pub current_run_id : Option String
  pub previous_run_id : Option String
  pub revision_count : ℕ
  pub retry_count : ℕ
  pub run_count : Option ℕ
  pub started_at : Option ℕ
  pub updated_at : ℕ
  pub blocked_reason : Option String
  pub failed_reason : Option String

-- What the schema asks beyond the types; an instant is a number here.
unfoldable pub valid_record : TaskRecord → Bool
valid_record r = is_text r.task_id && is_text r.project_id

-- What a `task.blocked` event says beside its reason.
pub data Extra : Type 0 where
  no_extra : Extra
  identity : String → String → String → String → Extra
  error : String → Extra
  question : Option String → Extra

-- The payloads that the orchestrator gives its events.
pub data Detail : Type 0 where
  no_detail recovered : Detail
  status : WorkerStatus → Detail
  reason : String → Extra → Detail
  revision : ℕ → Detail

pub record OrchestratorEvent : Type 0 where
  pub event : String
  pub timestamp : ℕ
  pub task_id : String
  pub run_id : String
  pub detail : Detail
