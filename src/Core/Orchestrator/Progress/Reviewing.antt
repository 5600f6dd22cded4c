-- ===== src/Core/Orchestrator/Progress/Reviewing.antt =====
-- `reviewCurrent` makes progress, or stops at a supervisor that is unavailable.
use agent_supervisor_runtime.Base.{
  ℕ, suc, ◌<◌, String, List, Option, none, some, ◌≡◌, refl, sym, ◌∙◌, subst, ◌⊎◌, arith, ap, length,
  inl, inr, insert_self,
}
use agent_supervisor_runtime.Contracts.Task.{Task}
use agent_supervisor_runtime.Contracts.State.{
  reviewing, revision_ready, completed, TaskRecord, Detail,
}
use agent_supervisor_runtime.Contracts.Result.{WorkerResult}
use agent_supervisor_runtime.Contracts.Review.{
  Review, Decision, pass, revise, ask_user, parse_review,
}
use agent_supervisor_runtime.Core.StateMachine.{review_pass, review_revise, transition}
use agent_supervisor_runtime.Core.Policy.{PolicyDecision, allow, refuse, can_auto_revise}
use agent_supervisor_runtime.Core.Policy.Decisions.{can_auto_revise_iff}
use agent_supervisor_runtime.Core.Orchestrator.World.{
  notify, call_supervisor, load_review, iso_now, OrchestratorDependencies, World, Outcome, ok,
  throw, continue, pure, ◌>>=◌,
}
use agent_supervisor_runtime.Core.Orchestrator.Moves.{move, truthy}
use agent_supervisor_runtime.Core.Orchestrator.Identity.{
  worker_result_identity_error, review_identity_error,
}
use agent_supervisor_runtime.Core.Orchestrator.Reviews.{
  revise_if, load_previous, by_decision, apply_review, save_if_new, accept_review, accept_parsed,
  accept_reply, review_or_ask, review_result, review_run, review_current,
}
use agent_supervisor_runtime.Contracts.Supervisor.{
  SupervisorNotification, Reply, replied, unavailable, rejected,
}
use agent_supervisor_runtime.Core.Orchestrator.Calls.{
  Ensures-bind, saved_record, saved_review, loaded_review, loaded_result, notified,
}
use agent_supervisor_runtime.Core.Orchestrator.Effects.{
  Stops, Moved, move-Moved, identity_agrees, truthy-some, or_block_either,
}
use agent_supervisor_runtime.Core.Orchestrator.Progress.{
  left_revise, Succeeded, Reviewed, Vouched, Succeeded-same, Reviewed-same, Vouched-same, Progress,
  Halted, halts, moves-Lands, Lands, Steps, Steps-Lands, land, Lands-from, block_task-Lands,
}

module _ (env : OrchestratorDependencies) where
  revised-Lands :
      (r : TaskRecord) (payload : Detail) (now : ℕ) (w w' : World)
      → r.state ≡ reviewing
      → r.revision_count < env.policy.max_revisions
      → length w'.handed ≡ length w.handed
      → let revised : TaskRecord = record r {
        revision_count = suc r.revision_count;
        retry_count = 0;
        updated_at = now;
      } in
        Lands env r w (move env revised review_revise (some "review.revise") payload w')
  unfolding transition
  revised-Lands r payload now w w' h k e =
      moves-Lands env r _ revision_ready w w' _ e
        (λ r' w'' m.
          land m (ground (arith, left_revise env.policy r.revision_count r.retry_count k))
            (ground (arith, left_revise env.policy r.revision_count r.retry_count k)) refl
            (λ v. tt))
        (move-Moved env _ review_revise revision_ready _ payload w' (ground arith))

  revise_if-Lands :
      (r : TaskRecord) (review : Review) (previous : Option Review) (d : PolicyDecision) (w : World)
      → r.state ≡ reviewing
      → can_auto_revise env.policy r review previous ≡ d
      → Lands env r w (revise_if env d r w)
  unfolding iso_now
  revise_if-Lands r review previous allow w h e =
      saved_record env (Progress env.policy r w) (Halted env r w) (record w { ticks = suc w.ticks })
        (halts env r w _ refl) _ _
        (revised-Lands r _ _ w _ h
          ((can_auto_revise_iff env.policy r review previous).0 e).below_limit refl)
  revise_if-Lands r review previous (refuse why) w h e =
      block_task-Lands env r why _ w (ground arith)

  -- The last move of a task that its supervisor passed, and the notification.
  passed-Lands :
      (r r' : TaskRecord) (w w' : World) (n : SupervisorNotification) (run_id : String)
      (review : Review)
      → r.state ≡ reviewing
      → Reviewed r w run_id review
      → review.decision ≡ pass
      → Moved r completed w r' w'
      → Lands env r w (continue (notify env n w') (λ t. pure r'))
  passed-Lands r r' w w' n run_id review h reviewed passed m =
      notified env (Progress env.policy r w) (Halted env r w) w' n
        (λ ns. halts env r w _ (ap length m.handed)) (λ t. pure r') noted
    where
      noted :
          (ns : List SupervisorNotification)
          → Progress env.policy r w r' (record w' { notified = ns })
      noted ns =
          let p : Progress env.policy r w r' w' = land m (ground arith) (ground arith) refl (λ v.
            let s : Succeeded r w = subst (λ x. Vouched x r w) h v in
            (
              Succeeded-same m.task m.run m.results s,
              record {
                run_id = run_id;
                review = review;
                reviewed = Reviewed-same m.task m.run m.reviews reviewed;
                passed = passed;
              },
            )) in
          record {
            falls = p.falls;
            saved = p.saved;
            same_task = p.same_task;
            executions = p.executions;
            sound = λ v. Vouched-same r'.state r' w' _ refl refl (p.sound v);
          }

  by_decision-Lands :
      (r : TaskRecord) (d : Decision) (run_id : String) (review : Review) (w : World)
      → r.state ≡ reviewing
      → Reviewed r w run_id review
      → review.decision ≡ d
      → Lands env r w (by_decision env d r review w)
  unfolding transition load_review
  by_decision-Lands r pass run_id review w h k e =
      Ensures-bind (Moved r completed w) (Stops env w) _ _ (move env r review_pass _ _ w) _
        (move-Moved env r review_pass completed _ _ w (ground arith))
        (λ e w' q. halts env r w w' (ap length q.handed) e q.refused)
        (λ r' w' m. passed-Lands r r' w w' _ run_id review h k e m)
  by_decision-Lands r ask_user run_id review w h k e = block_task-Lands env r _ _ w (ground arith)
  by_decision-Lands r revise run_id review w h k e = with_previous (truthy r.previous_run_id)
    where
      with_previous :
          (o : Option String)
          → Lands env r w (
              continue
                (load_previous env o w)
                (λ previous. revise_if env (can_auto_revise env.policy r review previous) r))
      with_previous none = revise_if-Lands r review none _ w h refl
      with_previous (some run) =
          loaded_review env (Progress env.policy r w) (Halted env r w) w (halts env r w w refl) run
            _ (revise_if-Lands r review (w.reviews run) _ w h refl)

  -- The review is saved under the run: it was, or nothing was and it is saved now.
  save_if_new-Lands :
      (r : TaskRecord) (run_id : String) (review : Review) (saved : Option Review) (w : World)
      → r.state ≡ reviewing
      → r.current_run_id ≡ some run_id
      → review.task_id ≡ r.task_id
      → review.run_id ≡ run_id
      → w.reviews run_id ≡ saved
      → (saved ≡ none) ⊎ (saved ≡ some review)
      → Lands env r w
          (continue (save_if_new env run_id review saved w) (λ t. apply_review env r review))
  unfolding apply_review
  save_if_new-Lands r run_id review none w h c t u e k =
      saved_review env (Progress env.policy r w) (Halted env r w) w (halts env r w w refl) run_id
        review _
        (Lands-from env r w _ _ refl
          (λ v. rw h (Succeeded-same refl refl refl (subst (λ x. Vouched x r w) h v)))
          (by_decision-Lands r review.decision run_id review _ h
            (record {
              current = c;
              stored = insert_self run_id review w.reviews;
              for_task = t;
              for_run = u;
            })
            refl))
  save_if_new-Lands r run_id review (some saved) w h c t u e k =
      by_decision-Lands r review.decision run_id review w h
        (record { current = c; stored = ground arith; for_task = t; for_run = u }) refl

  accept_review-Lands :
      (task : Task) (r : TaskRecord) (run_id : String) (review : Review) (w : World)
      → r.state ≡ reviewing
      → r.task_id ≡ task.task_id
      → r.current_run_id ≡ some run_id
      → (w.reviews run_id ≡ none) ⊎ (w.reviews run_id ≡ some review)
      → Lands env r w (accept_review env task r run_id review w)
  unfolding accept_review
  accept_review-Lands task r run_id review w h t c k =
      or_block_either env _ _ (review_identity_error task run_id review) r _ _ w
        (λ extra. block_task-Lands env r _ extra w (ground arith))
        (λ agree.
          let ids = identity_agrees task.task_id run_id review.task_id review.run_id agree in
          loaded_review env (Progress env.policy r w) (Halted env r w) w (halts env r w w refl)
            run_id _
            (save_if_new-Lands r run_id review (w.reviews run_id) w h c (ids.0 ∙ sym t) ids.1 refl
              k))

  accept_reply-Steps :
      (task : Task) (r : TaskRecord) (run_id : String) (reply : Reply) (w : World)
      → r.state ≡ reviewing
      → r.task_id ≡ task.task_id
      → r.current_run_id ≡ some run_id
      → w.reviews run_id ≡ none
      → Steps env r w (accept_reply env task r run_id reply w)
  accept_reply-Steps task r run_id (replied raw) w h t c e = by_parse (parse_review raw)
    where
      by_parse : (o : Option Review) → Steps env r w (accept_parsed env task r run_id o w)
      by_parse none = Steps-Lands env r w _ (block_task-Lands env r _ _ w (ground arith))
      by_parse (some review) =
          Steps-Lands env r w _ (accept_review-Lands task r run_id review w h t c (inl e))
  accept_reply-Steps task r run_id (rejected message) w h t c e =
      Steps-Lands env r w _ (block_task-Lands env r _ _ w (ground arith))
  accept_reply-Steps task r run_id (unavailable message) w h t c e =
      inl (record { message = message; cause = refl; in_review = h; kept = refl; handed = refl })

  pub Steps-from :
      (r : TaskRecord) (w w' : World) (x : Outcome TaskRecord × World)
      → w'.handed ≡ w.handed
      → w'.records ≡ w.records
      → w'.results ≡ w.results
      → w'.reviews ≡ w.reviews
      → Steps env r w' x
      → Steps env r w x
  Steps-from r w w' (ok r', w'') e k a b p =
      Lands-from env r w w' (ok r', w'') (ap length e) (Vouched-same r.state r w w' a b) p
  Steps-from r w w' (throw f, w'') e k a b (inl s) = inl (record {
    message = s.message;
    cause = s.cause;
    in_review = s.in_review;
    kept = ground (arith, s.kept, k);
    handed = s.handed ∙ e;
  })
  Steps-from r w w' (throw f, w'') e k a b (inr s) =
      inr (record { refused = s.refused; executions = omega (arith, s.executions, ap length e) })

  review_or_ask-Steps :
      (task : Task) (r : TaskRecord) (run_id : String) (result : WorkerResult)
      (review : Option Review) (w : World)
      → r.state ≡ reviewing
      → r.task_id ≡ task.task_id
      → r.current_run_id ≡ some run_id
      → w.reviews run_id ≡ review
      → Steps env r w (review_or_ask env task r run_id result review w)
  unfolding call_supervisor
  review_or_ask-Steps task r run_id result (some review) w h t c e =
      Steps-Lands env r w _ (accept_review-Lands task r run_id review w h t c (inr e))
  review_or_ask-Steps task r run_id result none w h t c e = with_previous (truthy r.previous_run_id)
    where
      with_previous :
          (o : Option String)
          → Steps env r w (
              continue (load_previous env o w) (λ previous.
                call_supervisor env (record {
                  task = task;
                  result = result;
                  previous_review = previous;
                  revision_number = r.revision_count;
                })
                >>= accept_reply env task r run_id))
      with_previous none =
          Steps-from r w _ _ refl refl refl refl (accept_reply-Steps task r run_id _ _ h t c e)
      with_previous (some run) =
          loaded_review env (Progress env.policy r w) _ w (λ e k. inr (halts env r w w refl e k))
            run _
            (Steps-from r w _ _ refl refl refl refl (accept_reply-Steps task r run_id _ _ h t c e))

  review_result-Steps :
      (task : Task) (r : TaskRecord) (run_id : String) (result : Option WorkerResult) (w : World)
      → r.state ≡ reviewing
      → r.task_id ≡ task.task_id
      → r.current_run_id ≡ some run_id
      → Steps env r w (review_result env task r run_id result w)
  unfolding load_review
  review_result-Steps task r run_id none w h t c =
      Steps-Lands env r w _ (block_task-Lands env r _ _ w (ground arith))
  review_result-Steps task r run_id (some result) w h t c =
      or_block_either env _ _ (worker_result_identity_error task run_id result) r _ _ w
        (λ extra. Steps-Lands env r w _ (block_task-Lands env r _ extra w (ground arith)))
        (λ agree.
          loaded_review env (Progress env.policy r w) _ w (λ e k. inr (halts env r w w refl e k))
            run_id _ (review_or_ask-Steps task r run_id result (w.reviews run_id) w h t c refl))

  pub review_current-Steps :
      (task : Task) (r : TaskRecord) (w : World)
      → r.state ≡ reviewing
      → r.task_id ≡ task.task_id
      → Steps env r w (review_current env task r w)
  unfolding review_current
  review_current-Steps task r w h t = by_run (truthy r.current_run_id) refl
    where
      by_run :
          (o : Option String)
          → truthy r.current_run_id ≡ o
          → Steps env r w (review_run env task r o w)
      by_run none e = Steps-Lands env r w _ (block_task-Lands env r _ _ w (ground arith))
      by_run (some run_id) e =
          loaded_result env (Progress env.policy r w) _ w (λ e k. inr (halts env r w w refl e k))
            run_id _
            (review_result-Steps task r run_id (w.results run_id) w h t
              (truthy-some r.current_run_id run_id e))
