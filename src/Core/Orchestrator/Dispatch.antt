-- ===== src/Core/Orchestrator/Dispatch.antt =====
-- `prepareDispatch`: a new run id and the prompt of the run.
use Prim.Native.String.{◌++◌ as str_append}
use agent_supervisor_runtime.Base.{
  ℕ, suc, String, Bool, false, Option, none, some, leb, nat_eq, if◌then◌else◌,
}
use agent_supervisor_runtime.Contracts.Task.{Task, Budget}
use agent_supervisor_runtime.Contracts.State.{
  RunState, TaskRecord, no_extra, no_detail, revision_ready,
}
use agent_supervisor_runtime.Contracts.Result.{WorkerResult}
use agent_supervisor_runtime.Contracts.Review.{Review}
use agent_supervisor_runtime.Core.StateMachine.{dispatch}
use agent_supervisor_runtime.Workers.Prompt.{compile_worker_prompt, compile_revision_prompt}
use agent_supervisor_runtime.Core.Orchestrator.World.{
  OrchestratorDependencies, Exec, pure, ◌>>=◌, ◌>>◌, iso_now, fresh_run_id, save_worker_prompt,
  load_worker_result, load_review,
}
use agent_supervisor_runtime.Core.Orchestrator.Moves.{truthy, move, block_task}
use agent_supervisor_runtime.Core.Orchestrator.Identity.{
  identity_error, worker_result_identity_error, review_identity_error, or_block,
}

-- `task.budget?.maxRuns && runCount >= task.budget.maxRuns`
abbrev pub runs_exhausted : Option Budget → ℕ → Bool
runs_exhausted none n = false
runs_exhausted (some b) n = elim b.max_runs [
  | none ↦ false
  | some m ↦ if nat_eq m 0 then false else leb m n
]

abbrev pub count_or_zero : Option ℕ → ℕ
count_or_zero none = 0
count_or_zero (some n) = n

abbrev pub dispatching : TaskRecord → String → ℕ → TaskRecord
dispatching r run_id now = record r {
  previous_run_id = r.current_run_id;
  current_run_id = some run_id;
  run_count = some (suc (count_or_zero r.run_count));
  updated_at = now;
}

-- `${task.taskId}-${this.runId()}`
abbrev pub run_id_of : Task → String → String
run_id_of task id = str_append task.task_id (str_append "-" id)

module _ (env : OrchestratorDependencies) where
  unfoldable pub save_prompt : TaskRecord → String → String → Exec TaskRecord
  save_prompt next run_id prompt = do save_worker_prompt run_id prompt; pure next

  -- The branch of `prepareDispatch` for a revision.
  abbrev pub revise_prompt :
      Task → TaskRecord → String → String → Option WorkerResult → Option Review → Exec TaskRecord
  revise_prompt task next run_id previous none review =
      block_task env next "REVISION_CONTEXT_MISSING" no_extra
  revise_prompt task next run_id previous (some result) none =
      block_task env next "REVISION_CONTEXT_MISSING" no_extra
  revise_prompt task next run_id previous (some result) (some review) =
      or_block env (worker_result_identity_error task previous result) next "WORKER_RESULT_INVALID"
        (or_block env (review_identity_error task previous review) next
          "SUPERVISOR_RESPONSE_INVALID"
          (save_prompt next run_id (compile_revision_prompt task run_id result review)))

  unfoldable pub prompt_for :
      Task → RunState → Option String → TaskRecord → String → Exec TaskRecord
  unfolding save_prompt save_worker_prompt load_worker_result load_review identity_error
  prompt_for task revision_ready (some previous) next run_id = do
    result ← load_worker_result previous
    review ← load_review previous
    revise_prompt task next run_id previous result review
  prompt_for task _ _ next run_id = save_prompt next run_id (compile_worker_prompt task run_id)

  abbrev pub dispatch_run : Task → TaskRecord → String → ℕ → Exec TaskRecord
  dispatch_run task r run_id now = do
    next ← move env (dispatching r run_id now) dispatch (some "task.dispatched") no_detail
    prompt_for task r.state (truthy r.current_run_id) next run_id

  abbrev pub start_run : Task → TaskRecord → Exec TaskRecord
  start_run task r = do
    id ← fresh_run_id env
    now ← iso_now env
    dispatch_run task r (run_id_of task id) now

  unfoldable pub prepare_dispatch : Task → TaskRecord → Exec TaskRecord
  unfolding prompt_for fresh_run_id iso_now
  prepare_dispatch task r w =
      if runs_exhausted task.budget (count_or_zero r.run_count)
      then block_task env r "RUN_BUDGET_EXCEEDED" no_extra w
      else start_run task r w
