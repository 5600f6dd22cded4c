-- ===== src/Core/Orchestrator/Progress/Dispatching.antt =====
-- `prepareDispatch` makes progress.
use agent_supervisor_runtime.Base.{
  ℕ, ◌≤◌, String, false, Option, none, some, ◌≡◌, refl, ap, arith, length, Bool-cases, inl, inr,
}
use agent_supervisor_runtime.Contracts.Task.{Task}
use agent_supervisor_runtime.Contracts.State.{RunState, dispatched, revision_ready, TaskRecord}
use agent_supervisor_runtime.Contracts.Result.{WorkerResult}
use agent_supervisor_runtime.Contracts.Review.{Review}
use agent_supervisor_runtime.Core.StateMachine.{dispatch, transition, is_terminal}
use agent_supervisor_runtime.Core.Orchestrator.World.{OrchestratorDependencies, World, pure}
use agent_supervisor_runtime.Core.Orchestrator.Moves.{move, truthy}
use agent_supervisor_runtime.Core.Orchestrator.Identity.{
  worker_result_identity_error, review_identity_error,
}
use agent_supervisor_runtime.Core.Orchestrator.Dispatch.{
  prepare_dispatch, prompt_for, save_prompt, revise_prompt, runs_exhausted, count_or_zero,
  dispatching, dispatch_run,
}
use agent_supervisor_runtime.Core.Orchestrator.Calls.{
  Ensures-bind, saved_prompt, loaded_result, loaded_review,
}
use agent_supervisor_runtime.Core.Orchestrator.Effects.{Stops, Moved, move-Moved, or_block_either}
use agent_supervisor_runtime.Core.Orchestrator.Progress.{
  phase, Vouched-same, Progress, Halted, halts_after, Lands, land, block_task-Lands, block_after,
}

module _ (env : OrchestratorDependencies) where
  save_prompt-Lands :
      {r : TaskRecord} {w : World} (r' : TaskRecord) (run_id prompt : String) (w' : World)
      → Progress env.policy r w r' w'
      → Lands env r w (save_prompt env r' run_id prompt w')
  unfolding save_prompt
  save_prompt-Lands {r} {w} r' run_id prompt w' p =
      saved_prompt env (Progress env.policy r w) (Halted env r w) w' (halts_after env w' p refl)
        run_id prompt (λ t. pure r')
        (record {
          falls = p.falls;
          saved = p.saved;
          same_task = p.same_task;
          executions = p.executions;
          sound = λ h. Vouched-same r'.state r' w' _ refl refl (p.sound h);
        })

  revise_prompt-Lands :
      {r : TaskRecord} {w : World} (task : Task) (r' : TaskRecord) (run_id previous : String)
      (result : Option WorkerResult) (review : Option Review) (w' : World)
      → Progress env.policy r w r' w'
      → is_terminal r'.state ≡ false
      → Lands env r w (revise_prompt env task r' run_id previous result review w')
  revise_prompt-Lands task r' run_id previous none review w' p h = block_after env r' w' _ _ p h
  revise_prompt-Lands task r' run_id previous (some result) none w' p h =
      block_after env r' w' _ _ p h
  revise_prompt-Lands task r' run_id previous (some result) (some review) w' p h =
      or_block_either env _ _ (worker_result_identity_error task previous result) r' _ _ w'
        (λ extra. block_after env r' w' _ extra p h)
        (λ agree.
          or_block_either env _ _ (review_identity_error task previous review) r' _ _ w'
            (λ extra. block_after env r' w' _ extra p h)
            (λ agreed. save_prompt-Lands r' run_id _ w' p))

  prompt_for-Lands :
      {r : TaskRecord} {w : World} (task : Task) (s : RunState) (previous : Option String)
      (r' : TaskRecord) (run_id : String) (w' : World)
      → Progress env.policy r w r' w'
      → is_terminal r'.state ≡ false
      → Lands env r w (prompt_for env task s previous r' run_id w')
  unfolding prompt_for
  prompt_for-Lands {r} {w} task revision_ready (some previous) r' run_id w' p h =
      loaded_result env (Progress env.policy r w) (Halted env r w) w' (halts_after env w' p refl)
        previous _
        (loaded_review env (Progress env.policy r w) (Halted env r w) w' (halts_after env w' p refl)
          previous
          (λ review. revise_prompt env task r' run_id previous (w'.results previous) review)
          (revise_prompt-Lands task r' run_id previous _ _ w' p h))
  prompt_for-Lands task _ _ r' run_id w' p h = save_prompt-Lands r' run_id _ w' p

  dispatch_allowed :
      (r : TaskRecord) → phase r.state ≡ 5 → transition r.state dispatch ≡ some dispatched
  unfolding transition
  dispatch_allowed r h = ground arith

  pub prepare_dispatch-Lands :
      (task : Task) (r : TaskRecord) (w : World)
      → phase r.state ≡ 5
      → Lands env r w (prepare_dispatch env task r w)
  unfolding prepare_dispatch
  prepare_dispatch-Lands task r w h =
      elim (Bool-cases (runs_exhausted task.budget (count_or_zero r.run_count))) [
        | inl e ↦ rw e (block_task-Lands env r _ _ w (ground arith))
        | inr e ↦ rw e (start _ _ _ (omega arith))
      ]
    where
      start :
          (run_id : String) (now : ℕ) (w' : World)
          → length w'.handed ≤ length w.handed
          → Lands env r w (dispatch_run env task r run_id now w')
      start run_id now w' k =
          Ensures-bind (Moved (dispatching r run_id now) dispatched w') (Stops env w') _ _
            (move env (dispatching r run_id now) dispatch _ _ w') _
            (move-Moved env (dispatching r run_id now) dispatch dispatched _ _ w'
              (dispatch_allowed r h))
            (λ e w'' q. record {
              refused = q.refused;
              executions = omega (arith, k, ap length q.handed);
            })
            (λ r' w'' m.
              prompt_for-Lands task r.state (truthy r.current_run_id) r' run_id w''
                (land m (ground arith) (ground arith) refl (λ v. tt)) (ground arith))
