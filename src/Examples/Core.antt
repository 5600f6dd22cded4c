-- ===== src/Examples/Core.antt =====
-- The state machine, the policy, the prompts and the identifiers at concrete inputs.
use agent_supervisor_runtime.Base.{
  true, false, ◌&&◌, [], ◌∷◌, none, some, ◌≡◌, ◌↔◌, refl, is_some, InOrder,
}
use agent_supervisor_runtime.Contracts.Identifiers.{
  state_identifier, is_safe_identifier, state_identifier-is_safe_identifier,
}
use agent_supervisor_runtime.Contracts.State.{dispatched, completed, blocked, reviewing, ready}
use agent_supervisor_runtime.Contracts.Result.{WorkerResult, WorkerStatus}
use agent_supervisor_runtime.Contracts.Review.{Review, revise}
use agent_supervisor_runtime.Core.StateMachine.{
  start, worker_succeeded, request_review, review_pass, block, user_resolved, transition,
  is_terminal,
}
use agent_supervisor_runtime.Core.StateMachine.Paths.{
  outstanding, completed_path, transition-completed, transition-is_terminal,
}
use agent_supervisor_runtime.Core.Policy.{default_policy, allow, can_auto_revise}
use agent_supervisor_runtime.Core.Policy.Decisions.{can_auto_revise_iff, Revisable}
use agent_supervisor_runtime.Core.Orchestrator.Scenarios.{
  demo_task, demo_result, demo_review, waiting,
}
use agent_supervisor_runtime.Runtime.Session.{
  SupervisorSession, create_supervisor_session, offline, active, chrome_closed, lease_active,
  transitions,
}
use agent_supervisor_runtime.Runtime.Session.Connectivity.{transitions-active}

abbrev first_run : WorkerResult
first_run =
    demo_result
      (record {
        run_id = "T1-a";
        run_directory = "/r";
        prompt = "p";
        revision_number = 0;
        retry_ordinal = 0;
      })
      WorkerStatus.completed

abbrev first_review : Review
first_review =
    demo_review
      (record { task = demo_task; result = first_run; previous_review = none; revision_number = 0 })
      revise

completed_path_example :
    InOrder (outstanding dispatched) (start ∷ worker_succeeded ∷ request_review ∷ review_pass ∷ [])
completed_path_example =
    completed_path dispatched (start ∷ worker_succeeded ∷ request_review ∷ review_pass ∷ [])
      (unfold transition in refl)

transition-completed_example :
    (transition reviewing review_pass ≡ some completed)
    ↔ ((reviewing ≡ reviewing) × (review_pass ≡ review_pass))
transition-completed_example = transition-completed reviewing review_pass

transition-is_terminal_example :
    ((transition blocked block ≡ some blocked) ↔ (is_terminal blocked ≡ false))
    × ((is_terminal blocked && is_some (transition blocked user_resolved) ≡ true)
        ↔ ((blocked ≡ blocked) × (user_resolved ≡ user_resolved)))
    × (transition blocked user_resolved ≡ some ready)
transition-is_terminal_example = transition-is_terminal blocked user_resolved

can_auto_revise_iff_example :
    (can_auto_revise default_policy waiting first_review none ≡ allow)
    ↔ Revisable default_policy waiting first_review none
can_auto_revise_iff_example = can_auto_revise_iff default_policy waiting first_review none

state_identifier-is_safe_identifier_example :
    state_identifier "../etc" ≡ is_safe_identifier "../etc"
state_identifier-is_safe_identifier_example = state_identifier-is_safe_identifier "../etc"

abbrev session : SupervisorSession
session = create_supervisor_session reviewing offline

transitions-active_example :
    ((transitions session (chrome_closed ∷ lease_active ∷ [])).task_state ≡ session.task_state)
    × (((transitions session (chrome_closed ∷ lease_active ∷ [])).state ≡ active)
        ↔ (lease_active ≡ lease_active))
transitions-active_example = transitions-active session (chrome_closed ∷ []) lease_active
