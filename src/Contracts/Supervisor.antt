-- ===== src/Contracts/Supervisor.antt =====
-- contracts/supervisor.ts and contracts/worker.ts: what the orchestrator hands to its adapters.
use agent_supervisor_runtime.Base.{ℕ, String, Option}
use agent_supervisor_runtime.Contracts.Task.{Task, Raw}
use agent_supervisor_runtime.Contracts.Result.{WorkerResult}
use agent_supervisor_runtime.Contracts.Review.{Review}

pub record ReviewRequest : Type 0 where
  pub task : Task
  pub result : WorkerResult
  pub previous_review : Option Review
  pub revision_number : ℕ

pub data NotificationType : Type 0 where
  status blocked completed : NotificationType

pub record SupervisorNotification : Type 0 where
  pub type : NotificationType
  pub task_id : String
  pub message : String

pub record WorkerExecutionContext : Type 0 where
  pub run_id : String
  pub run_directory : String
  pub prompt : String
  pub revision_number : ℕ
  pub retry_ordinal : ℕ

-- How a call of `execute` ends: it returns, or it throws with a message.
pub data Attempt : Type 0 where
  returned : WorkerResult → Attempt
  threw : String → Attempt

-- How a call of `requestReview` ends; `unavailable` is `SupervisorUnavailableError`.
pub data Reply : Type 0 where
  replied : Raw Review → Reply
  unavailable : String → Reply
  rejected : String → Reply
