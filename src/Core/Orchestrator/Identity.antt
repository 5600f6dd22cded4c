-- ===== src/Core/Orchestrator/Identity.antt =====
-- The identity checks that results and reviews pass before they count.
use agent_supervisor_runtime.Base.{String, ◌&&◌, Option, none, some, str_eq, if◌then◌else◌}
use agent_supervisor_runtime.Contracts.Task.{Task}
use agent_supervisor_runtime.Contracts.State.{TaskRecord, Extra, identity}
use agent_supervisor_runtime.Contracts.Result.{WorkerResult}
use agent_supervisor_runtime.Contracts.Review.{Review}
use agent_supervisor_runtime.Core.Orchestrator.World.{OrchestratorDependencies, Exec}
use agent_supervisor_runtime.Core.Orchestrator.Moves.{block_task}

-- `workerResultIdentityError` and `reviewIdentityError`: `none` when both ids agree.
unfoldable pub identity_error : String → String → String → String → Option Extra
identity_error task_id run_id received_task_id received_run_id =
    if str_eq received_task_id task_id && str_eq received_run_id run_id
    then none
    else some (identity task_id received_task_id run_id received_run_id)

abbrev pub worker_result_identity_error : Task → String → WorkerResult → Option Extra
worker_result_identity_error task run_id result =
    identity_error task.task_id run_id result.task_id result.run_id

abbrev pub review_identity_error : Task → String → Review → Option Extra
review_identity_error task run_id review =
    identity_error task.task_id run_id review.task_id review.run_id

module _ (env : OrchestratorDependencies) where
  abbrev pub or_block : Option Extra → TaskRecord → String → Exec TaskRecord → Exec TaskRecord
  or_block none r why rest = rest
  or_block (some extra) r why rest = block_task env r why extra
