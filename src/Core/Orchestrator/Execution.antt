-- ===== src/Core/Orchestrator/Execution.antt =====
-- `executeDispatched`, `resumeRunning` and `recoverInterruptedFailure`.
use Prim.Native.String.{◌++◌ as str_append}
use agent_supervisor_runtime.Base.{ℕ, suc, String, false, [], ◌∷◌, Option, none, some}
use agent_supervisor_runtime.Contracts.Task.{Task}
use agent_supervisor_runtime.Contracts.State.{
  TaskRecord, no_extra, Detail, no_detail, recovered, status,
}
use agent_supervisor_runtime.Contracts.Result.{WorkerResult, WorkerStatus}
use agent_supervisor_runtime.Contracts.Supervisor.{Attempt, returned, threw}
use agent_supervisor_runtime.Core.StateMachine.{
  start, worker_succeeded, worker_retry, worker_failed,
}
use agent_supervisor_runtime.Core.Policy.{PolicyDecision, allow, refuse, should_retry_worker}
use agent_supervisor_runtime.Core.Orchestrator.World.{
  OrchestratorDependencies, Exec, pure, ◌>>=◌, ◌>>◌, iso_now, save_record, load_worker_prompt,
  save_worker_result, load_worker_result, call_worker, get_run_directory,
}
use agent_supervisor_runtime.Core.Orchestrator.Moves.{truthy, event, move, block_task}
use agent_supervisor_runtime.Core.Orchestrator.Identity.{
  identity_error, worker_result_identity_error, or_block,
}

module _ (env : OrchestratorDependencies) where
  -- The result that stands in for an exception of the worker adapter.
  unfoldable pub crashed_result : String → String → String → ℕ → ℕ → WorkerResult
  crashed_result run_id task_id message started completed = record {
    run_id = run_id;
    task_id = task_id;
    status = WorkerStatus.failed;
    summary = str_append "Worker adapter threw: " message;
    changed_files = [];
    commands = [];
    verification = [];
    artifacts = [];
    git = none;
    machine_evidence = record {
      process_exit_code = none;
      timed_out = false;
      stdout_path = none;
      stderr_path = none;
      diff_path = none;
      git_status = none;
      diff_stat = none;
    };
    warnings = some (message ∷ []);
    unresolved_issues = none;
    started_at = started;
    completed_at = completed;
  }

  abbrev pub settle : Task → String → Attempt → Exec WorkerResult
  settle task run_id (returned result) = pure result
  settle task run_id (threw message) = do
    started ← iso_now env
    completed ← iso_now env
    pure (crashed_result run_id task.task_id message started completed)

  -- Both tails that decide on a retry, in `executeDispatched` after a failed worker and in
  -- `recoverInterruptedFailure`; they differ in the payload of their event.
  abbrev pub retry_or_fail : PolicyDecision → TaskRecord → Detail → Exec TaskRecord
  retry_or_fail allow r payload = do
    now ← iso_now env
    let bumped : TaskRecord = record r { retry_count = suc r.retry_count; updated_at = now }
    save_record bumped
    move env bumped worker_retry (some "worker.retry_scheduled") payload
  retry_or_fail (refuse why) r payload = do
    now ← iso_now env
    let stopped : TaskRecord = record r { failed_reason = some why; updated_at = now }
    save_record stopped
    move env stopped worker_failed (some "worker.failed") payload

  abbrev pub by_status : WorkerStatus → TaskRecord → Detail → Exec TaskRecord
  by_status WorkerStatus.completed r payload =
      move env r worker_succeeded (some "worker.completed") payload
  by_status _ r payload = retry_or_fail (should_retry_worker env.policy r.retry_count) r payload

  -- From the worker's answer on.
  unfoldable pub finish_execution : Task → TaskRecord → String → WorkerResult → Exec TaskRecord
  unfolding identity_error save_worker_result
  finish_execution task r run_id result =
      or_block env (worker_result_identity_error task run_id result) r "WORKER_RESULT_INVALID" (do
        save_worker_result run_id result
        event env r "result.persisted" (status result.status)
        by_status result.status r no_detail)

  abbrev pub execute_prompt : Task → TaskRecord → String → Option String → Exec TaskRecord
  execute_prompt task r run_id none = block_task env r "WORKER_PROMPT_MISSING" no_extra
  execute_prompt task r run_id (some prompt) = do
    directory ← get_run_directory env run_id
    started ← move env r start (some "worker.started") no_detail
    attempt ← call_worker env task (record {
      run_id = run_id;
      run_directory = directory;
      prompt = prompt;
      revision_number = started.revision_count;
      retry_ordinal = started.retry_count;
    })
    result ← settle task run_id attempt
    finish_execution task started run_id result

  abbrev pub execute_run : Task → TaskRecord → Option String → Exec TaskRecord
  execute_run task r none = block_task env r "RUN_ID_MISSING" no_extra
  execute_run task r (some run_id) = do
    prompt ← load_worker_prompt run_id
    execute_prompt task r run_id (truthy prompt)

  unfoldable pub execute_dispatched : Task → TaskRecord → Exec TaskRecord
  unfolding load_worker_prompt get_run_directory call_worker finish_execution crashed_result
  execute_dispatched task r = execute_run task r (truthy r.current_run_id)

  unfoldable pub recover_interrupted_failure : TaskRecord → Exec TaskRecord
  unfolding iso_now save_record
  recover_interrupted_failure r =
      retry_or_fail (should_retry_worker env.policy r.retry_count) r recovered

  abbrev pub recover_status : TaskRecord → WorkerStatus → Exec TaskRecord
  recover_status r WorkerStatus.completed =
      move env r worker_succeeded (some "worker.completed") recovered
  recover_status r _ = recover_interrupted_failure r

  abbrev pub recover_result : Task → TaskRecord → String → Option WorkerResult → Exec TaskRecord
  recover_result task r run_id none = recover_interrupted_failure r
  recover_result task r run_id (some result) =
      or_block env (worker_result_identity_error task run_id result) r "WORKER_RESULT_INVALID"
        (recover_status r result.status)

  abbrev pub recover_run : Task → TaskRecord → Option String → Exec TaskRecord
  recover_run task r none = block_task env r "RUN_ID_MISSING" no_extra
  recover_run task r (some run_id) = do
    result ← load_worker_result run_id
    recover_result task r run_id result

  -- `resumeRunning` up to its return to `advance`; where it returns a blocked record instead,
  -- `advance` hands that record back as it is.
  unfoldable pub resume_running : Task → TaskRecord → Exec TaskRecord
  unfolding recover_interrupted_failure identity_error load_worker_result
  resume_running task r = recover_run task r (truthy r.current_run_id)
