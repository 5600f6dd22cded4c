-- ===== src/Core/Orchestrator/Entry.antt =====
-- `run` and `resume`, whatever the worker, the supervisor and the clock do.
use agent_supervisor_runtime.Base.{
  ◌⊎◌, inl, inr, ℕ, suc, ◌+◌, ◌*◌, ◌≤◌, ◌<◌, String, true, some, ◌≡◌, refl, sym, ◌∙◌, ap, subst,
  arith, length, Bool-cases, inl, inr,
}
use agent_supervisor_runtime.Contracts.Identifiers.{is_safe_identifier}
use agent_supervisor_runtime.Contracts.Task.{Task, Raw, parse_task, valid_task}
use agent_supervisor_runtime.Contracts.State.{
  RunState, ready, running, reviewing, completed, TaskRecord, valid_record,
}
use agent_supervisor_runtime.Core.StateMachine.{validate, transition, is_terminal}
use agent_supervisor_runtime.Core.Policy.{PolicyConfig}
use agent_supervisor_runtime.Core.Orchestrator.World.{
  OrchestratorDependencies, World, Failure, supervisor_unavailable, Outcome, ok, throw,
}
use agent_supervisor_runtime.Core.Orchestrator.Moves.{move}
use agent_supervisor_runtime.Core.Orchestrator.Loop.{initial_record, run, resume_from, resume}
use agent_supervisor_runtime.Core.Orchestrator.Calls.{
  Ensures, Ensures-bind, Refused, saved_task, saved_record,
}
use agent_supervisor_runtime.Core.Orchestrator.Effects.{Stops, Moved, move-Moved}
use agent_supervisor_runtime.Core.Orchestrator.Progress.{
  left_all, left_le, measure, phase, Steps-Lands, Succeeded, Approved, Vouched,
}
use agent_supervisor_runtime.Core.Orchestrator.Progress.Executing.{resume_running-Lands}
use agent_supervisor_runtime.Core.Orchestrator.Termination.{Ends, advance-Ends, advance_rest}

-- Rounds that the limits of a policy allow a new task.
abbrev pub enough_fuel : PolicyConfig → ℕ
enough_fuel config =
    (config.max_revisions * suc config.max_worker_retries + config.max_worker_retries) * 6 + 6

-- How a call of `run` on a valid task ends: terminal, saved under the task, with at most
-- (maxRevisions + 1) * (maxWorkerRetries + 1) more calls of the worker, and completed only on a
-- saved result of the worker that says completed and a saved review that says PASS, both of them
-- of this task and of its current run.
pub record RunFinished (config : PolicyConfig) (task : Task) (w : World) (r : TaskRecord)
    (w' : World) : Type 0 where
  pub terminal : is_terminal r.state ≡ true
  pub same_task : r.task_id ≡ task.task_id
  pub saved : w'.records task.task_id ≡ some r
  pub executions :
      length w'.handed ≤ length w.handed + suc config.max_revisions * suc config.max_worker_retries
  pub completion : r.state ≡ completed → Succeeded r w' × Approved r w'

-- Or it throws since the supervisor is unavailable, and the task is saved in review.
pub record RunPaused (config : PolicyConfig) (task : Task) (w : World) (e : Failure) (w' : World)
    : Type 0 where
  pub message : String
  pub cause : e ≡ supervisor_unavailable message
  pub paused : TaskRecord
  pub saved : w'.records task.task_id ≡ some paused
  pub in_review : paused.state ≡ reviewing
  pub executions :
      length w'.handed ≤ length w.handed + suc config.max_revisions * suc config.max_worker_retries

-- Or it throws since a guard or a schema of the store, or the recipient of a notification, refused:
-- an identifier, a value or a notification that it does refuse.
pub record RunRefused (env : OrchestratorDependencies) (w : World) (e : Failure) (w' : World)
    : Type 0 where
  pub refused : Refused env e
  pub executions :
      length w'.handed
      ≤ length w.handed + suc env.policy.max_revisions * suc env.policy.max_worker_retries

abbrev pub RunEnds : OrchestratorDependencies → Task → World → Outcome TaskRecord × World → Type 0
RunEnds env task w =
    Ensures (RunFinished env.policy task w)
      (λ e w'. RunPaused env.policy task w e w' ⊎ RunRefused env w e w')

module _ (env : OrchestratorDependencies) where
  refused_early :
      (task : Task) (w w' : World)
      → w'.handed ≡ w.handed
      → (e : Failure) → Refused env e
      → RunPaused env.policy task w e w' ⊎ RunRefused env w e w'
  refused_early task w w' h e k =
      inr (record { refused = k; executions = ground (arith, ap length h) })

  from_validated :
      (task : Task) (now : ℕ) (w v w' : World) (r : TaskRecord) (x : Outcome TaskRecord × World)
      → Moved (initial_record task now) ready v r w'
      → length v.handed ≡ length w.handed
      → Ends env r w' x
      → RunEnds env task w x
  from_validated task now w v w' r (ok r', w'') m e f = record {
    terminal = f.terminal;
    same_task = f.same_task ∙ m.task;
    saved = ap w''.records (sym (f.same_task ∙ m.task)) ∙ f.saved;
    executions = ground (arith, left_all env.policy);
    completion = λ c.
        subst (λ s. Vouched s r' w'') c (f.sound (subst (λ s. Vouched s r w') (sym m.state) tt));
  }
  from_validated task now w v w' r (throw g, w'') m e (inl f) = inl (record {
    message = f.message;
    cause = f.cause;
    paused = f.record_saved;
    saved = ap w''.records (sym m.task) ∙ f.saved;
    in_review = f.in_review;
    executions = ground (arith, left_all env.policy);
  })
  from_validated task now w v w' r (throw g, w'') m e (inr f) =
      inr (record { refused = f.refused; executions = ground (arith, left_all env.policy) })

  -- With enough fuel `run` on an input that parses ends in one of three ways. It returns a terminal
  -- record that is saved under the task, and whose completion means that its result is stored as
  -- completed and its review as a pass, both under its ids; or it throws because the supervisor is
  -- unavailable, with the task saved in review; or it throws because the store refuses an identifier
  -- that is not safe or a value that its schema does not admit, or because a notification that was
  -- sent is rejected. In each the worker is called at most once for each chance that the limits on
  -- revisions and retries leave.
  pub run_ends :
      (fuel : ℕ) (input : Raw Task) (task : Task) (w : World)
      → parse_task input ≡ some task
      → enough_fuel env.policy ≤ fuel
      → RunEnds env task w (run env fuel input w)
  unfolding run transition
  run_ends fuel input task w p f =
      let first : TaskRecord = initial_record task (env.now w.ticks) in
      rw (p, run)
        (saved_task env (RunFinished env.policy task w) _ _ (refused_early task w _ refl) task _ (
          saved_record env (RunFinished env.policy task w) _ _ (refused_early task w _ refl) first _
            (Ensures-bind (Moved first ready _) (Stops env _) _ _ (move env first validate _ _ _) _
              (move-Moved env first validate ready _ _ _ refl)
              (λ e w' q. refused_early task w w' q.handed e q.refused)
              (λ r w' m. from_validated task _ w _ w' r _ m refl (
                advance-Ends env fuel task r w' (ground (arith, left_all env.policy)) m.task
                  m.saved)))))

  measure-le : (r : TaskRecord) → measure env.policy r ≤ enough_fuel env.policy
  measure-le r =
      let p : phase r.state ≤ 6 = ground arith in
      omega (arith, left_all env.policy, left_le env.policy r.revision_count r.retry_count)

  resume_from-Ends :
      (fuel : ℕ) (task : Task) (r : TaskRecord) (s : RunState) (w : World)
      → r.state ≡ s
      → measure env.policy r < fuel
      → r.task_id ≡ task.task_id
      → w.records r.task_id ≡ some r
      → Ends env r w (resume_from env fuel task r s w)
  resume_from-Ends fuel task r running w e m t saved =
      advance_rest env task r w fuel _ t saved (omega arith)
        (λ r' w' k u s. advance-Ends env fuel task r' w' k u s)
        (Steps-Lands env r w _ (resume_running-Lands env task r w e t))
  resume_from-Ends fuel task r _ w e m t saved = advance-Ends env fuel task r w m t saved

  -- With enough fuel `resume` of a task that is saved under a safe identifier, with a record under its
  -- own id, as their schemas admit them, ends: a terminal record comes back as it is with nothing
  -- written; any other task ends as the loop does, with a terminal record that is saved, or paused in
  -- review, or stopped by the store or a notification that refused what it does refuse. A completed one
  -- vouches for its result and its review if the record that was resumed vouched for what its state
  -- says. The worker is called at most once for each chance that the record has left.
  pub resume-Ends :
      (fuel : ℕ) (task_id : String) (task : Task) (r : TaskRecord) (w : World)
      → is_safe_identifier task_id ≡ true
      → w.tasks task_id ≡ some task
      → valid_task task ≡ true
      → w.records task_id ≡ some r
      → valid_record r ≡ true
      → task.task_id ≡ task_id
      → r.task_id ≡ task_id
      → enough_fuel env.policy < fuel
      → (is_terminal r.state ≡ true → resume env fuel task_id w ≡ (ok r, w))
        × Ends env r w (resume env fuel task_id w)
  unfolding resume
  resume-Ends fuel task_id task r w v a x b y t u f =
      let m : measure env.policy r < fuel = omega (arith, measure-le r) in
      let saved : w.records r.task_id ≡ some r = ap w.records u ∙ b in
      elim (Bool-cases (is_terminal r.state)) [
        | inl e ↦
            rw (v, a, x, b, y, e, resume)
              (
                (λ k. refl),
                record {
                  terminal = e;
                  saved = saved;
                  same_task = refl;
                  executions = omega arith;
                  sound = λ v. v;
                },
              )
        | inr e ↦
            rw (v, a, x, b, y, e, resume)
              ((λ k. cc), resume_from-Ends fuel task r r.state w refl m (u ∙ sym t) saved)
      ]
