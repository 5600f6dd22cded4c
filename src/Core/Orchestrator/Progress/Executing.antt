-- ===== src/Core/Orchestrator/Progress/Executing.antt =====
-- `executeDispatched` and `resumeRunning` make progress.
use agent_supervisor_runtime.Base.{
  ℕ, suc, ◌<◌, String, ◌∷◌, Option, none, some, ◌≡◌, refl, arith, ap, sym, ◌∙◌, length, insert_self,
}
use agent_supervisor_runtime.Contracts.Task.{Task}
use agent_supervisor_runtime.Contracts.State.{
  dispatched, running, retry_ready, result_ready, failed, TaskRecord, Detail, no_detail, recovered,
}
use agent_supervisor_runtime.Contracts.Result.{WorkerResult, WorkerStatus}
use agent_supervisor_runtime.Core.StateMachine.{
  start, worker_succeeded, worker_retry, worker_failed, transition,
}
use agent_supervisor_runtime.Core.Policy.{PolicyDecision, allow, refuse, should_retry_worker}
use agent_supervisor_runtime.Core.Policy.Decisions.{should_retry_worker_iff}
use agent_supervisor_runtime.Core.Orchestrator.World.{
  iso_now, call_worker, OrchestratorDependencies, World, continue,
}
use agent_supervisor_runtime.Core.Orchestrator.Moves.{event, move, truthy}
use agent_supervisor_runtime.Core.Orchestrator.Identity.{worker_result_identity_error}
use agent_supervisor_runtime.Core.Orchestrator.Execution.{
  retry_or_fail, by_status, finish_execution, settle, execute_prompt, execute_run,
  execute_dispatched, recover_interrupted_failure, recover_result, recover_run, recover_status,
  resume_running,
}
use agent_supervisor_runtime.Contracts.Supervisor.{WorkerExecutionContext, Attempt, returned, threw}
use agent_supervisor_runtime.Core.Orchestrator.Calls.{
  Ensures-bind, saved_record, saved_result, loaded_prompt, loaded_result, got_directory,
}
use agent_supervisor_runtime.Core.Orchestrator.Effects.{
  Stops, event-Logged, Moved, move-Moved, identity_agrees, truthy-some, or_block_either,
}
use agent_supervisor_runtime.Core.Orchestrator.Progress.{
  left_retry, Succeeded, Succeeded-same, Progress, Halted, halts, Lands, moves-Lands, land,
  Lands-trans, Lands-from, block_task-Lands,
}

module _ (env : OrchestratorDependencies) where
  retry-Lands :
      (r : TaskRecord) (payload : Detail) (now : ℕ) (w w' : World)
      → r.state ≡ running
      → r.retry_count < env.policy.max_worker_retries
      → length w'.handed ≡ length w.handed
      → let bumped : TaskRecord = record r { retry_count = suc r.retry_count; updated_at = now } in
        Lands env r w (move env bumped worker_retry (some "worker.retry_scheduled") payload w')
  unfolding transition
  retry-Lands r payload now w w' h k e =
      moves-Lands env r _ retry_ready w w' _ e
        (λ r' w'' m.
          land m (ground (arith, left_retry env.policy r.revision_count r.retry_count k))
            (ground (arith, left_retry env.policy r.revision_count r.retry_count k)) refl (λ v. tt))
        (move-Moved env _ worker_retry retry_ready _ payload w' (ground arith))

  fail-Lands :
      (r : TaskRecord) (why : String) (payload : Detail) (now : ℕ) (w w' : World)
      → r.state ≡ running
      → length w'.handed ≡ length w.handed
      → let stopped : TaskRecord = record r { failed_reason = some why; updated_at = now } in
        Lands env r w (move env stopped worker_failed (some "worker.failed") payload w')
  unfolding transition
  fail-Lands r why payload now w w' h e =
      moves-Lands env r _ failed w w' _ e
        (λ r' w'' m. land m (ground arith) (ground arith) refl (λ v. tt))
        (move-Moved env _ worker_failed failed _ payload w' (ground arith))

  retry_or_fail-Lands :
      (r : TaskRecord) (decision : PolicyDecision) (payload : Detail) (w : World)
      → r.state ≡ running
      → should_retry_worker env.policy r.retry_count ≡ decision
      → Lands env r w (retry_or_fail env decision r payload w)
  unfolding iso_now
  retry_or_fail-Lands r allow payload w h e =
      saved_record env (Progress env.policy r w) (Halted env r w) (record w { ticks = suc w.ticks })
        (halts env r w _ refl) _ _
        (retry-Lands r payload _ w _ h ((should_retry_worker_iff env.policy r.retry_count).0 e)
          refl)
  retry_or_fail-Lands r (refuse why) payload w h e =
      saved_record env (Progress env.policy r w) (Halted env r w) (record w { ticks = suc w.ticks })
        (halts env r w _ refl) _ _ (fail-Lands r why payload _ w _ h refl)

  succeed-Lands :
      (r : TaskRecord) (payload : Detail) (w : World)
      → r.state ≡ running
      → Succeeded r w
      → Lands env r w (move env r worker_succeeded (some "worker.completed") payload w)
  unfolding transition
  succeed-Lands r payload w h s =
      moves-Lands env r r result_ready w w _ refl
        (λ r' w'' m.
          land m (ground arith) (ground arith) refl (λ v. Succeeded-same m.task m.run m.results s))
        (move-Moved env r worker_succeeded result_ready _ payload w (ground arith))

  by_status-Lands :
      (r : TaskRecord) (s : WorkerStatus) (payload : Detail) (w : World)
      → r.state ≡ running
      → (s ≡ WorkerStatus.completed → Succeeded r w)
      → Lands env r w (by_status env s r payload w)
  by_status-Lands r WorkerStatus.completed payload w h k = succeed-Lands r payload w h (k refl)
  by_status-Lands r _ payload w h k = retry_or_fail-Lands r _ payload w h refl

  finish_execution-Lands :
      (task : Task) (r : TaskRecord) (run_id : String) (result : WorkerResult) (w : World)
      → r.state ≡ running
      → r.task_id ≡ task.task_id
      → r.current_run_id ≡ some run_id
      → Lands env r w (finish_execution env task r run_id result w)
  unfolding finish_execution
  finish_execution-Lands task r run_id result w h t c =
      or_block_either env _ _ (worker_result_identity_error task run_id result) r _ _ w
        (λ extra. block_task-Lands env r _ extra w (ground arith))
        (λ agree.
          let ids = identity_agrees task.task_id run_id result.task_id result.run_id agree in
          saved_result env (Progress env.policy r w) (Halted env r w) w (halts env r w w refl)
            run_id result _
            (Ensures-bind _ (Stops env _) _ _ (event env r _ _ _) _ (event-Logged env r _ _ _)
              (λ e w' q. halts env r w w' (ap length q.handed) e q.refused)
              (λ x w' k.
                Lands-from env r w w' _ (ap length k.handed) (λ v. rw h tt)
                  (by_status-Lands r result.status no_detail w' h (λ worked. record {
                    run_id = run_id;
                    result = result;
                    current = c;
                    stored = ap (λ f. f run_id) k.results ∙ insert_self run_id result w.results;
                    worked = worked;
                    for_task = ids.0 ∙ sym t;
                    for_run = ids.1;
                  })))))

  -- The task is running and the worker has been called once more.
  started_run :
      (r r' : TaskRecord) (w w' : World)
      → r.state ≡ dispatched
      → Moved r running w r' w'
      → (context : WorkerExecutionContext) → (ticks : ℕ)
      → Progress env.policy r w r' (record w' { handed = context ∷ w'.handed; ticks = ticks })
  started_run r r' w w' h m context ticks = record {
    falls = ground arith;
    saved = m.saved;
    same_task = m.task;
    executions = ground arith;
    sound = λ v. rw m.state tt;
  }

  settled-Lands :
      (task : Task) (r r' : TaskRecord) (run_id : String) (context : WorkerExecutionContext)
      (attempt : Attempt) (w w' : World)
      → r.state ≡ dispatched
      → r.task_id ≡ task.task_id
      → r.current_run_id ≡ some run_id
      → Moved r running w r' w'
      → Lands env r w (
          continue
            (settle env task run_id attempt (record w' { handed = context ∷ w'.handed }))
            (finish_execution env task r' run_id))
  unfolding iso_now
  settled-Lands task r r' run_id context (returned result) w w' h t c m =
      Lands-trans env r r' w _ _ (started_run r r' w w' h m context w'.ticks)
        (finish_execution-Lands task r' run_id result _ m.state (m.task ∙ t) (m.run ∙ c))
  settled-Lands task r r' run_id context (threw message) w w' h t c m =
      Lands-trans env r r' w _ _ (started_run r r' w w' h m context _)
        (finish_execution-Lands task r' run_id _ _ m.state (m.task ∙ t) (m.run ∙ c))

  execute_prompt-Lands :
      (task : Task) (r : TaskRecord) (run_id : String) (prompt : Option String) (w : World)
      → r.state ≡ dispatched
      → r.task_id ≡ task.task_id
      → r.current_run_id ≡ some run_id
      → Lands env r w (execute_prompt env task r run_id prompt w)
  unfolding call_worker transition
  execute_prompt-Lands task r run_id none w h t c = block_task-Lands env r _ _ w (ground arith)
  execute_prompt-Lands task r run_id (some prompt) w h t c =
      got_directory env (Progress env.policy r w) (Halted env r w) w (halts env r w w refl) run_id _
        (Ensures-bind (Moved r running w) (Stops env w) _ _ (move env r start _ _ w) _
          (move-Moved env r start running _ _ w (ground arith))
          (λ e w' q. halts env r w w' (ap length q.handed) e q.refused)
          (λ r' w' m. settled-Lands task r r' run_id _ _ w w' h t c m))

  pub execute_dispatched-Lands :
      (task : Task) (r : TaskRecord) (w : World)
      → r.state ≡ dispatched
      → r.task_id ≡ task.task_id
      → Lands env r w (execute_dispatched env task r w)
  unfolding execute_dispatched
  execute_dispatched-Lands task r w h t = by_run (truthy r.current_run_id) refl
    where
      by_run :
          (o : Option String)
          → truthy r.current_run_id ≡ o
          → Lands env r w (execute_run env task r o w)
      by_run none e = block_task-Lands env r _ _ w (ground arith)
      by_run (some run_id) e =
          loaded_prompt env (Progress env.policy r w) (Halted env r w) w (halts env r w w refl)
            run_id _
            (execute_prompt-Lands task r run_id _ w h t (truthy-some r.current_run_id run_id e))

  recover_interrupted_failure-Lands :
      (r : TaskRecord) (w : World)
      → r.state ≡ running
      → Lands env r w (recover_interrupted_failure env r w)
  unfolding recover_interrupted_failure
  recover_interrupted_failure-Lands r w h = retry_or_fail-Lands r _ recovered w h refl

  recover_status-Lands :
      (r : TaskRecord) (s : WorkerStatus) (w : World)
      → r.state ≡ running
      → (s ≡ WorkerStatus.completed → Succeeded r w)
      → Lands env r w (recover_status env r s w)
  recover_status-Lands r WorkerStatus.completed w h k = succeed-Lands r recovered w h (k refl)
  recover_status-Lands r _ w h k = recover_interrupted_failure-Lands r w h

  recover_result-Lands :
      (task : Task) (r : TaskRecord) (run_id : String) (result : Option WorkerResult) (w : World)
      → r.state ≡ running
      → r.task_id ≡ task.task_id
      → r.current_run_id ≡ some run_id
      → w.results run_id ≡ result
      → Lands env r w (recover_result env task r run_id result w)
  recover_result-Lands task r run_id none w h t c e = recover_interrupted_failure-Lands r w h
  recover_result-Lands task r run_id (some result) w h t c e =
      or_block_either env _ _ (worker_result_identity_error task run_id result) r _ _ w
        (λ extra. block_task-Lands env r _ extra w (ground arith))
        (λ agree.
          let ids = identity_agrees task.task_id run_id result.task_id result.run_id agree in
          recover_status-Lands r result.status w h (λ worked. record {
            run_id = run_id;
            result = result;
            current = c;
            stored = e;
            worked = worked;
            for_task = ids.0 ∙ sym t;
            for_run = ids.1;
          }))

  pub resume_running-Lands :
      (task : Task) (r : TaskRecord) (w : World)
      → r.state ≡ running
      → r.task_id ≡ task.task_id
      → Lands env r w (resume_running env task r w)
  unfolding resume_running
  resume_running-Lands task r w h t = by_run (truthy r.current_run_id) refl
    where
      by_run :
          (o : Option String)
          → truthy r.current_run_id ≡ o
          → Lands env r w (recover_run env task r o w)
      by_run none e = block_task-Lands env r _ _ w (ground arith)
      by_run (some run_id) e =
          loaded_result env (Progress env.policy r w) (Halted env r w) w (halts env r w w refl)
            run_id _
            (recover_result-Lands task r run_id (w.results run_id) w h t
              (truthy-some r.current_run_id run_id e) refl)
