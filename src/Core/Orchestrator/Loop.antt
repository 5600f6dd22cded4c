-- ===== src/Core/Orchestrator/Loop.antt =====
-- `run`, `resume` and the loop `advance`.
use agent_supervisor_runtime.Base.{ℕ, zero, suc, String, true, false, none, some, if◌then◌else◌}
use agent_supervisor_runtime.Contracts.Task.{Task, Raw, parse_task}
use agent_supervisor_runtime.Contracts.State.{
  RunState, created, ready, dispatched, running, retry_ready, result_ready, reviewing,
  revision_ready, TaskRecord, no_extra, no_detail,
}
use agent_supervisor_runtime.Core.StateMachine.{validate, request_review, is_terminal}
use agent_supervisor_runtime.Core.Policy.{PolicyDecision, allow, refuse, check_runtime_budget}
use agent_supervisor_runtime.Core.Orchestrator.World.{
  OrchestratorDependencies, invalid_task, not_persisted, out_of_fuel, unhandled_state, Exec, pure,
  raise, or_raise, ◌>>=◌, ◌>>◌, iso_now, initialize, save_task, save_record, load_task, load_record,
  continue, ok, throw,
}
use agent_supervisor_runtime.Core.Orchestrator.Moves.{move, block_task}
use agent_supervisor_runtime.Core.Orchestrator.Dispatch.{prepare_dispatch}
use agent_supervisor_runtime.Core.Orchestrator.Execution.{execute_dispatched, resume_running}
use agent_supervisor_runtime.Core.Orchestrator.Reviews.{review_current}

-- The record that `run` saves first.
abbrev pub initial_record : Task → ℕ → TaskRecord
initial_record task now = record {
  task_id = task.task_id;
  project_id = task.project_id;
  state = created;
  current_run_id = none;
  previous_run_id = none;
  revision_count = 0;
  retry_count = 0;
  run_count = some 0;
  started_at = some now;
  updated_at = now;
  blocked_reason = none;
  failed_reason = none;
}

module _ (env : OrchestratorDependencies) where
  -- The `switch` of `advance`: one step of a task that is within its budget.
  unfoldable pub handle : RunState → Task → TaskRecord → Exec TaskRecord
  handle created task r = move env r validate none no_detail
  handle ready task r = prepare_dispatch env task r
  handle retry_ready task r = prepare_dispatch env task r
  handle revision_ready task r = prepare_dispatch env task r
  handle dispatched task r = execute_dispatched env task r
  handle running task r = resume_running env task r
  handle result_ready task r = move env r request_review (some "review.requested") no_detail
  handle reviewing task r = review_current env task r
  handle s task r = raise (unhandled_state s)

  abbrev pub within_budget : PolicyDecision → Task → TaskRecord → Exec TaskRecord
  within_budget (refuse why) task r = block_task env r why no_extra
  within_budget allow task r = handle r.state task r

  -- The body of the loop.
  unfoldable pub iterate : Task → TaskRecord → Exec TaskRecord
  unfolding iso_now
  iterate task r = do
    now ← iso_now env
    within_budget (check_runtime_budget env.policy task r now) task r

  -- The loop. `resumeRunning` calls `advance` on what it recovered; as its result is terminal, the
  -- outer loop then ends, so the recursion is one more round of this loop.
  unfoldable pub advance : ℕ → Task → TaskRecord → Exec TaskRecord
  advance zero task r w = (throw out_of_fuel, w)
  advance (suc fuel) task r w = elim (is_terminal r.state) [
    | true ↦ (ok r, w)
    | false ↦ continue (iterate task r w) (advance fuel task)
  ]

  unfoldable pub run : ℕ → Raw Task → Exec TaskRecord
  unfolding initialize save_task save_record iso_now
  run fuel input = do
    task ← or_raise (parse_task input) invalid_task
    initialize task.project_id
    save_task task
    now ← iso_now env
    save_record (initial_record task now)
    validated ← move env (initial_record task now) validate none no_detail
    advance fuel task validated

  abbrev pub resume_from : ℕ → Task → TaskRecord → RunState → Exec TaskRecord
  resume_from fuel task r running = do
    recovered ← resume_running env task r
    advance fuel task recovered
  resume_from fuel task r _ = advance fuel task r

  unfoldable pub resume : ℕ → String → Exec TaskRecord
  unfolding load_task load_record
  resume fuel task_id = do
    task ← load_task task_id
    r ← load_record task_id
    task ← or_raise task not_persisted
    r ← or_raise r not_persisted
    if is_terminal r.state then pure r else resume_from fuel task r r.state
