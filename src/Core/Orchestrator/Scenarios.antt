-- ===== src/Core/Orchestrator/Scenarios.antt =====
-- Runs of the orchestrator with scripted adapters, and the theorems at them.
use agent_supervisor_runtime.Base.{
  ℕ, zero, suc, String, Bool, true, false, [], ◌∷◌, Option, none, some, ◌≡◌, refl, arith, length,
  no_entries, insert,
}
use agent_supervisor_runtime.Contracts.Task.{Task, shaped, parse_task}
use agent_supervisor_runtime.Contracts.State.{
  RunState, TaskRecord, running, reviewing, completed, valid_record,
}
use agent_supervisor_runtime.Contracts.Result.{WorkerResult, WorkerStatus, valid_result}
use agent_supervisor_runtime.Contracts.Review.{
  Review, Decision, pass, revise, parse_review, valid_review, refine_review, valid_finding,
}
use agent_supervisor_runtime.Contracts.Supervisor.{
  ReviewRequest, WorkerExecutionContext, Attempt, returned, threw, Reply, replied, unavailable,
}
use agent_supervisor_runtime.Core.Policy.{default_policy}
use agent_supervisor_runtime.Core.Orchestrator.World.{
  OrchestratorDependencies, World, Outcome, ok, throw, result_refused, notify,
}
use agent_supervisor_runtime.Core.StateMachine.{transition, is_terminal}
use agent_supervisor_runtime.Core.Policy.{
  check_runtime_budget, should_retry_worker, can_auto_revise,
}
use agent_supervisor_runtime.Workers.Prompt.{compile_worker_prompt, compile_revision_prompt}
use agent_supervisor_runtime.Contracts.Identifiers.{state_identifier, is_safe_identifier}
use agent_supervisor_runtime.Contracts.Task.{valid_task}
use agent_supervisor_runtime.Core.Orchestrator.Moves.{move, event, block_task}
use agent_supervisor_runtime.Core.Orchestrator.Dispatch.{prepare_dispatch}
use agent_supervisor_runtime.Core.Orchestrator.Execution.{execute_dispatched}
use agent_supervisor_runtime.Core.Orchestrator.Reviews.{review_current, accept_review, apply_review}
use agent_supervisor_runtime.Core.Orchestrator.Loop.{
  initial_record, run, resume, advance, iterate, handle,
}
use agent_supervisor_runtime.Core.Orchestrator.Termination.{Ends}
use agent_supervisor_runtime.Core.Orchestrator.Entry.{RunEnds, run_ends, resume-Ends}

abbrev pub demo_task : Task
demo_task = record {
  task_id = "T1";
  project_id = "P";
  objective = "build";
  context = none;
  instructions = "do it" ∷ [];
  constraints = none;
  acceptance_criteria = "tests pass" ∷ [];
  artifacts = none;
  execution = record { working_directory = "/w"; timeout_seconds = none };
  budget = none;
  revision = none;
}

abbrev pub demo_result : WorkerExecutionContext → WorkerStatus → WorkerResult
demo_result context s = record {
  run_id = context.run_id;
  task_id = "T1";
  status = s;
  summary = "done";
  changed_files = [];
  commands = [];
  verification = [];
  artifacts = [];
  git = none;
  machine_evidence = record {
    process_exit_code = none;
    timed_out = false;
    stdout_path = none;
    stderr_path = none;
    diff_path = none;
    git_status = none;
    diff_stat = none;
  };
  warnings = none;
  unresolved_issues = none;
  started_at = 0;
  completed_at = 0;
}

-- The first execution throws, the second fails, all later ones complete.
abbrev demo_worker : ℕ → Task → WorkerExecutionContext → Attempt
demo_worker zero task context = threw "spawn"
demo_worker (suc zero) task context = returned (demo_result context WorkerStatus.failed)
demo_worker (suc (suc n)) task context = returned (demo_result context WorkerStatus.completed)

abbrev pub demo_review : ReviewRequest → Decision → Review
demo_review request d = record {
  task_id = "T1";
  run_id = request.result.run_id;
  decision = d;
  summary = "seen";
  findings = [];
  revision_instructions = some ("again" ∷ []);
  user_question = none;
  confidence = none;
}

-- One revision, then a pass.
abbrev demo_supervisor : ℕ → ReviewRequest → Reply
demo_supervisor zero request = replied (shaped (demo_review request revise))
demo_supervisor (suc n) request = replied (shaped (demo_review request pass))

abbrev demo_ids : ℕ → String
demo_ids zero = "a"
demo_ids (suc zero) = "b"
demo_ids (suc (suc zero)) = "c"
demo_ids (suc (suc (suc n))) = "d"

abbrev demo : OrchestratorDependencies
demo = record {
  policy = default_policy;
  now = λ n. n;
  run_id = demo_ids;
  run_directory = λ s. s;
  worker = demo_worker;
  supervisor = demo_supervisor;
  notify = some (λ n notification. true);
}

abbrev offline : OrchestratorDependencies
offline = record demo { supervisor = λ n request. unavailable "closed" }

abbrev blank : World
blank = record {
  store = record {
    project = none;
    tasks = no_entries;
    records = no_entries;
    prompts = no_entries;
    results = no_entries;
    reviews = no_entries;
    events = λ s. [];
  };
  ticks = 0;
  ids = 0;
  handed = [];
  asked = [];
  notified = [];
}

abbrev state_of : Outcome TaskRecord → Option RunState
state_of (ok r) = some r.state
state_of (throw e) = none

abbrev demo_run : Outcome TaskRecord × World
demo_run = run demo 72 (shaped demo_task) blank

demo_task_parses : parse_task (shaped demo_task) ≡ some demo_task
unfolding parse_task valid_task state_identifier
demo_task_parses = refl

demo_task_valid : valid_task demo_task ≡ true
unfolding valid_task state_identifier
demo_task_valid = refl

-- Three runs of the first attempt and its retries, a revision, and a pass.
demo_completes :
    (state_of demo_run.0 ≡ some completed)
    × (length demo_run.1.handed ≡ 4)
    × (length demo_run.1.asked ≡ 2)
unfolding run parse_task valid_task state_identifier advance iterate handle prepare_dispatch
    execute_dispatched review_current move event block_task transition check_runtime_budget
    should_retry_worker can_auto_revise compile_worker_prompt compile_revision_prompt parse_review
    valid_review refine_review valid_finding accept_review apply_review notify is_safe_identifier
    valid_record valid_result
demo_completes = (refl, refl, refl)

-- A worker whose result names an artifact without a path.
abbrev pathless : WorkerExecutionContext → WorkerResult
pathless context = record (demo_result context WorkerStatus.completed) {
  artifacts = record { path = ""; kind = none } ∷ [];
}

abbrev careless : OrchestratorDependencies
careless = record demo { worker = λ n task context. returned (pathless context) }

abbrev careless_run : Outcome TaskRecord × World
careless_run = run careless 72 (shaped demo_task) blank

abbrev is_result_refused : Outcome TaskRecord → Bool
is_result_refused (throw (result_refused r)) = true
is_result_refused x = false

abbrev state_saved : Option TaskRecord → Option RunState
state_saved none = none
state_saved (some r) = some r.state

-- The schema refuses the result, `run` throws, and the task stays saved as running.
careless_throws :
    (is_result_refused careless_run.0 ≡ true)
    × (state_saved (careless_run.1.records "T1") ≡ some running)
unfolding run parse_task valid_task state_identifier advance iterate handle prepare_dispatch
    execute_dispatched move event transition check_runtime_budget compile_worker_prompt
    is_safe_identifier valid_record valid_result
careless_throws = (refl, refl)

-- A result of the first run, as a worker may return it.
abbrev returned_result : WorkerResult
returned_result =
    demo_result
      (record {
        run_id = "T1-a";
        run_directory = "/r";
        prompt = "p";
        revision_number = 0;
        retry_ordinal = 0;
      })
      WorkerStatus.completed

run_ends_example : RunEnds demo demo_task blank demo_run
run_ends_example =
    run_ends demo 72 (shaped demo_task) demo_task blank demo_task_parses (omega arith)

abbrev pub waiting : TaskRecord
waiting = record (initial_record demo_task 0) {
  state = reviewing;
  current_run_id = some "T1-a";
  run_count = some 1;
}

abbrev restarted : World
restarted = record blank {
  store = record blank.store {
    tasks = insert "T1" demo_task no_entries;
    records = insert "T1" waiting no_entries;
  };
}

resume-Ends_example :
    (is_terminal waiting.state ≡ true → resume offline 73 "T1" restarted ≡ (ok waiting, restarted))
    × Ends offline waiting restarted (resume offline 73 "T1" restarted)
resume-Ends_example =
    resume-Ends offline 73 "T1" demo_task waiting restarted (unfold is_safe_identifier in refl) refl
      demo_task_valid refl (unfold valid_record in refl) refl refl (omega arith)
