-- ===== src/Core/Orchestrator/Reviews.antt =====
-- `reviewCurrent` and `applyReview`.
use agent_supervisor_runtime.Base.{suc, String, Option, none, some}
use agent_supervisor_runtime.Contracts.Task.{Task}
use agent_supervisor_runtime.Contracts.State.{
  TaskRecord, no_extra, error, question, no_detail, revision,
}
use agent_supervisor_runtime.Contracts.Result.{WorkerResult}
use agent_supervisor_runtime.Contracts.Review.{
  Review, Decision, pass, ask_user, revise, parse_review,
}
use agent_supervisor_runtime.Contracts.Supervisor.{
  NotificationType, Reply, replied, unavailable, rejected,
}
use agent_supervisor_runtime.Core.StateMachine.{review_pass, review_revise}
use agent_supervisor_runtime.Core.Policy.{PolicyDecision, allow, refuse, can_auto_revise}
use agent_supervisor_runtime.Core.Orchestrator.World.{
  OrchestratorDependencies, supervisor_unavailable, Exec, pure, raise, ◌>>=◌, ◌>>◌, iso_now,
  save_record, load_worker_result, save_review, load_review, call_supervisor, notify,
}
use agent_supervisor_runtime.Core.Orchestrator.Moves.{truthy, move, block_task}
use agent_supervisor_runtime.Core.Orchestrator.Identity.{
  identity_error, worker_result_identity_error, review_identity_error, or_block,
}

module _ (env : OrchestratorDependencies) where
  abbrev pub revise_if : PolicyDecision → TaskRecord → Exec TaskRecord
  revise_if (refuse why) r = block_task env r why no_extra
  revise_if allow r = do
    now ← iso_now env
    let revised : TaskRecord = record r {
      revision_count = suc r.revision_count;
      retry_count = 0;
      updated_at = now;
    }
    save_record revised
    move env revised review_revise (some "review.revise") (revision revised.revision_count)

  -- `record.previousRunId ? await loadReview(record.previousRunId) : undefined`
  abbrev pub load_previous : Option String → Exec (Option Review)
  load_previous none = pure none
  load_previous (some run_id) = load_review run_id

  abbrev pub by_decision : Decision → TaskRecord → Review → Exec TaskRecord
  by_decision pass r review = do
    next ← move env r review_pass (some "review.pass") no_detail
    notify env (record {
      type = NotificationType.completed;
      task_id = r.task_id;
      message = review.summary;
    })
    pure next
  by_decision ask_user r review =
      block_task env r "USER_DECISION_REQUIRED" (question review.user_question)
  by_decision revise r review = do
    previous ← load_previous (truthy r.previous_run_id)
    revise_if (can_auto_revise env.policy r review previous) r

  unfoldable pub apply_review : TaskRecord → Review → Exec TaskRecord
  unfolding iso_now save_record notify load_review
  apply_review r review = by_decision review.decision r review

  abbrev pub save_if_new : String → Review → Option Review → Exec (Unit {0})
  save_if_new run_id review none = save_review run_id review
  save_if_new run_id review (some saved) = pure tt

  -- From a review that is at hand.
  unfoldable pub accept_review : Task → TaskRecord → String → Review → Exec TaskRecord
  unfolding identity_error save_review load_review
  accept_review task r run_id review =
      or_block env (review_identity_error task run_id review) r "SUPERVISOR_RESPONSE_INVALID"
        (do saved ← load_review run_id; save_if_new run_id review saved; apply_review r review)

  abbrev pub accept_parsed : Task → TaskRecord → String → Option Review → Exec TaskRecord
  accept_parsed task r run_id none =
      block_task env r "SUPERVISOR_RESPONSE_INVALID" (error "invalid review")
  accept_parsed task r run_id (some review) = accept_review task r run_id review

  abbrev pub accept_reply : Task → TaskRecord → String → Reply → Exec TaskRecord
  accept_reply task r run_id (replied raw) = accept_parsed task r run_id (parse_review raw)
  accept_reply task r run_id (unavailable message) = raise (supervisor_unavailable message)
  accept_reply task r run_id (rejected message) =
      block_task env r "SUPERVISOR_RESPONSE_INVALID" (error message)

  abbrev pub review_or_ask :
      Task → TaskRecord → String → WorkerResult → Option Review → Exec TaskRecord
  review_or_ask task r run_id result (some review) = accept_review task r run_id review
  review_or_ask task r run_id result none = do
    previous ← load_previous (truthy r.previous_run_id)
    reply ← call_supervisor env (record {
      task = task;
      result = result;
      previous_review = previous;
      revision_number = r.revision_count;
    })
    accept_reply task r run_id reply

  abbrev pub review_result : Task → TaskRecord → String → Option WorkerResult → Exec TaskRecord
  review_result task r run_id none = block_task env r "WORKER_RESULT_MISSING" no_extra
  review_result task r run_id (some result) =
      or_block env (worker_result_identity_error task run_id result) r "WORKER_RESULT_INVALID"
        (do review ← load_review run_id; review_or_ask task r run_id result review)

  abbrev pub review_run : Task → TaskRecord → Option String → Exec TaskRecord
  review_run task r none = block_task env r "RUN_ID_MISSING" no_extra
  review_run task r (some run_id) = do
    result ← load_worker_result run_id
    review_result task r run_id result

  unfoldable pub review_current : Task → TaskRecord → Exec TaskRecord
  unfolding load_worker_result identity_error load_review call_supervisor
  review_current task r = review_run task r (truthy r.current_run_id)
