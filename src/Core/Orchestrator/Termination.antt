-- ===== src/Core/Orchestrator/Termination.antt =====
-- The loop ends, whatever the worker, the supervisor and the clock do.
use agent_supervisor_runtime.Base.{
  ℕ, zero, suc, ◌+◌, ◌≤◌, ◌<◌, String, true, false, Option, some, ◌≡◌, refl, sym, ◌∙◌, ap, subst,
  arith, length, ◌⊎◌, Bool-cases, inl, inr,
}
use agent_supervisor_runtime.Contracts.Task.{Task}
use agent_supervisor_runtime.Contracts.State.{
  RunState, created, ready, dispatched, running, retry_ready, result_ready, reviewing,
  revision_ready, TaskRecord, Detail,
}
use agent_supervisor_runtime.Core.StateMachine.{
  StateEvent, validate, request_review, transition, is_terminal,
}
use agent_supervisor_runtime.Core.Policy.{PolicyConfig, PolicyDecision, allow, refuse}
use agent_supervisor_runtime.Core.Orchestrator.World.{
  OrchestratorDependencies, World, Failure, supervisor_unavailable, Outcome, ok, throw, continue,
}
use agent_supervisor_runtime.Core.Orchestrator.Moves.{move}
use agent_supervisor_runtime.Core.Orchestrator.Loop.{handle, within_budget, iterate, advance}
use agent_supervisor_runtime.Core.Orchestrator.Calls.{Ensures}
use agent_supervisor_runtime.Core.Orchestrator.Effects.{Moved, move-Moved}
use agent_supervisor_runtime.Core.Orchestrator.Progress.{
  phase, pending, measure, chances, Vouched, Succeeded-same, Halted, moves-Lands, Lands, Steps,
  Steps-Lands, land, block_task-Lands,
}
use agent_supervisor_runtime.Core.Orchestrator.Progress.Dispatching.{prepare_dispatch-Lands}
use agent_supervisor_runtime.Core.Orchestrator.Progress.Executing.{
  execute_dispatched-Lands, resume_running-Lands,
}
use agent_supervisor_runtime.Core.Orchestrator.Progress.Reviewing.{review_current-Steps, Steps-from}

-- A call that returned: the record is terminal, it is the one that is saved, and the worker was
-- called no more often than the limits allow.
pub record Finished (config : PolicyConfig) (r : TaskRecord) (w : World) (r' : TaskRecord)
    (w' : World) : Type 0 where
  pub terminal : is_terminal r'.state ≡ true
  pub saved : w'.records r'.task_id ≡ some r'
  pub same_task : r'.task_id ≡ r.task_id
  pub executions : length w'.handed ≤ length w.handed + chances config r
  pub sound : Vouched r.state r w → Vouched r'.state r' w'

-- A call that threw for want of the supervisor: it is unavailable, and the record that is saved under the task is
-- in review.
pub record Paused (config : PolicyConfig) (r : TaskRecord) (w : World) (e : Failure) (w' : World)
    : Type 0 where
  pub message : String
  pub cause : e ≡ supervisor_unavailable message
  pub record_saved : TaskRecord
  pub saved : w'.records r.task_id ≡ some record_saved
  pub in_review : record_saved.state ≡ reviewing
  pub executions : length w'.handed ≤ length w.handed + chances config r

abbrev pub Ends :
    OrchestratorDependencies → TaskRecord → World → Outcome TaskRecord × World → Type 0
Ends env r w =
    Ensures (Finished env.policy r w) (λ e w'. Paused env.policy r w e w' ⊎ Halted env r w e w')

module _ (env : OrchestratorDependencies) where
  move-Lands :
      (r : TaskRecord) (e : StateEvent) (s : RunState) (name : Option String) (payload : Detail)
      (w : World)
      → transition r.state e ≡ some s
      → phase s < phase r.state
      → pending s ≤ pending r.state
      → ((r' : TaskRecord) (w' : World) → Moved r s w r' w' → Vouched r.state r w → Vouched s r' w')
      → Lands env r w (move env r e name payload w)
  move-Lands r e s name payload w h p q k =
      moves-Lands env r r s w w _ refl
        (λ r' w' m. land m (ground arith) (ground arith) refl (k r' w' m))
        (move-Moved env r e s name payload w h)

  handle-Steps :
      (s : RunState) (task : Task) (r : TaskRecord) (w : World)
      → r.state ≡ s
      → r.task_id ≡ task.task_id
      → is_terminal s ≡ false
      → Steps env r w (handle env s task r w)
  unfolding handle transition
  handle-Steps created task r w e t h = Steps-Lands env r w _ (
      move-Lands r validate ready _ _ w (ground arith) (ground arith) (ground arith)
        (λ r' w' m v. tt))
  handle-Steps ready task r w e t h =
      Steps-Lands env r w _ (prepare_dispatch-Lands env task r w (ground arith))
  handle-Steps retry_ready task r w e t h =
      Steps-Lands env r w _ (prepare_dispatch-Lands env task r w (ground arith))
  handle-Steps revision_ready task r w e t h =
      Steps-Lands env r w _ (prepare_dispatch-Lands env task r w (ground arith))
  handle-Steps dispatched task r w e t h =
      Steps-Lands env r w _ (execute_dispatched-Lands env task r w e t)
  handle-Steps running task r w e t h =
      Steps-Lands env r w _ (resume_running-Lands env task r w e t)
  handle-Steps result_ready task r w e t h = Steps-Lands env r w _ (
      move-Lands r request_review reviewing _ _ w (ground arith) (ground arith) (ground arith)
        (λ r' w' m v. Succeeded-same m.task m.run m.results (subst (λ x. Vouched x r w) e v)))
  handle-Steps reviewing task r w e t h = review_current-Steps env task r w e t
  handle-Steps _ task r w e t h = cc

  within_budget-Steps :
      (d : PolicyDecision) (task : Task) (r : TaskRecord) (w : World)
      → r.task_id ≡ task.task_id
      → is_terminal r.state ≡ false
      → Steps env r w (within_budget env d task r w)
  within_budget-Steps allow task r w t h = handle-Steps r.state task r w refl t h
  within_budget-Steps (refuse why) task r w t h =
      Steps-Lands env r w _ (block_task-Lands env r _ _ w h)

  iterate-Steps :
      (task : Task) (r : TaskRecord) (w : World)
      → r.task_id ≡ task.task_id
      → is_terminal r.state ≡ false
      → Steps env r w (iterate env task r w)
  unfolding iterate
  iterate-Steps task r w t h =
      Steps-from env r w _ _ refl refl refl refl (within_budget-Steps _ task r _ t h)

  -- One round of progress, and the rest.
  pub advance_rest :
      (task : Task) (r : TaskRecord) (w : World) (fuel : ℕ) (x : Outcome TaskRecord × World)
      → r.task_id ≡ task.task_id
      → w.records r.task_id ≡ some r
      → measure env.policy r < suc fuel
      → ((r' : TaskRecord) (w' : World)
          → measure env.policy r' < fuel
          → r'.task_id ≡ task.task_id
          → w'.records r'.task_id ≡ some r'
          → Ends env r' w' (advance env fuel task r' w'))
      → Steps env r w x
      → Ends env r w (continue x (advance env fuel task))
  advance_rest task r w fuel (throw e, w') t saved m rest (inl s) = inl (record {
    message = s.message;
    cause = s.cause;
    record_saved = r;
    saved = s.kept ∙ saved;
    in_review = s.in_review;
    executions = ground (arith, ap length s.handed);
  })
  advance_rest task r w fuel (throw e, w') t saved m rest (inr s) = inr s
  advance_rest task r w fuel (ok r', w') t saved m rest p =
      widen (advance env fuel task r' w')
        (rest r' w' (omega (arith, p.falls)) (p.same_task ∙ t) p.saved)
    where
      widen : (y : Outcome TaskRecord × World) → Ends env r' w' y → Ends env r w y
      widen (ok r'', w'') f = record {
        terminal = f.terminal;
        saved = f.saved;
        same_task = f.same_task ∙ p.same_task;
        executions = omega (arith, f.executions, p.executions);
        sound = λ v. f.sound (p.sound v);
      }
      widen (throw e, w'') (inl f) = inl (record {
        message = f.message;
        cause = f.cause;
        record_saved = f.record_saved;
        saved = ap w''.records (sym p.same_task) ∙ f.saved;
        in_review = f.in_review;
        executions = omega (arith, f.executions, p.executions);
      })
      widen (throw e, w'') (inr f) =
          inr
            (record { refused = f.refused; executions = omega (arith, f.executions, p.executions) })

  -- With more fuel than the measure of its record, the loop ends: it returns a terminal record, or
  -- it throws because the supervisor is unavailable, with a record in review saved, or because the
  -- store or a notification refused.
  pub advance-Ends :
      (fuel : ℕ) (task : Task) (r : TaskRecord) (w : World)
      → measure env.policy r < fuel
      → r.task_id ≡ task.task_id
      → w.records r.task_id ≡ some r
      → Ends env r w (advance env fuel task r w)
  unfolding advance
  advance-Ends zero task r w m t saved = absurd (omega arith)
  advance-Ends (suc fuel) task r w m t saved = elim (Bool-cases (is_terminal r.state)) [
    | inl e ↦
        rw (e, advance)
          (record {
            terminal = e;
            saved = saved;
            same_task = refl;
            executions = omega arith;
            sound = λ v. v;
          })
    | inr e ↦
        rw (e, advance)
          (advance_rest task r w fuel _ t saved m
            (λ r' w' k u s. advance-Ends fuel task r' w' k u s) (iterate-Steps task r w t e))
  ]
