-- ===== src/Core/Orchestrator/Progress.antt =====
-- What one round of the loop does to a task: the measure that falls, what is saved, how many worker
-- executions it may still cost, and what its state vouches for.
pub mod Dispatching
pub mod Executing
pub mod Reviewing
use agent_supervisor_runtime.Base.{
  ℕ, zero, suc, ◌+◌, ◌-◌, ◌*◌, ◌≤◌, ◌<◌, String, Bool, true, false, List, [], ◌∷◌, Option, none,
  some, ◌≡◌, refl, sym, ◌∙◌, subst, ap, arith, length, ◌⊎◌, inl, inr,
}
use agent_supervisor_runtime.Contracts.State.{
  RunState, created, ready, dispatched, running, retry_ready, result_ready, reviewing,
  revision_ready, completed, blocked, failed, TaskRecord, Extra, Detail,
}
use agent_supervisor_runtime.Contracts.Result.{WorkerResult, WorkerStatus}
use agent_supervisor_runtime.Contracts.Review.{Review, pass}
use agent_supervisor_runtime.Core.StateMachine.{is_terminal}
use agent_supervisor_runtime.Core.Policy.{PolicyConfig}
use agent_supervisor_runtime.Core.Orchestrator.World.{
  OrchestratorDependencies, World, Failure, supervisor_unavailable, Outcome, ok, throw,
}
use agent_supervisor_runtime.Core.Orchestrator.Moves.{block_task}
use agent_supervisor_runtime.Core.Orchestrator.Calls.{Ensures, Ensures-map, Refused}
use agent_supervisor_runtime.Core.Orchestrator.Effects.{Stops, Moved, block_task-Moved}

-- Retries and revisions that the limits still allow: each one takes at least 1 off.
pub left : PolicyConfig → ℕ → ℕ → ℕ
left config revisions retries =
    (config.max_revisions - revisions) * suc config.max_worker_retries
    + (config.max_worker_retries - retries)

pub left_retry :
    (config : PolicyConfig) (k n : ℕ)
    → n < config.max_worker_retries
    → left config k (suc n) + 1 ≡ left config k n
unfolding left
left_retry config k n h = omega arith

pub left_revise :
    (config : PolicyConfig) (k n : ℕ)
    → k < config.max_revisions
    → left config (suc k) 0 + 1 ≤ left config k n
unfolding left
left_revise config k n h =
    let d : ℕ = config.max_revisions - suc k in
    let e : config.max_revisions - k ≡ suc d = omega arith in rw e (omega arith)

pub left_all :
    (config : PolicyConfig)
    → left config 0 0
      ≡ config.max_revisions * suc config.max_worker_retries + config.max_worker_retries
unfolding left
left_all config =
    let e : config.max_revisions - 0 ≡ config.max_revisions = omega arith in rw e (omega arith)

pub left_le : (config : PolicyConfig) (k n : ℕ) → left config k n ≤ left config 0 0
unfolding left
left_le config k n =
    let a : config.max_revisions - k ≤ config.max_revisions = omega arith in grind arith

-- Rounds to the end of a run without a retry or a revision.
abbrev pub phase : RunState → ℕ
phase created = 6
phase ready = 5
phase retry_ready = 5
phase revision_ready = 5
phase dispatched = 4
phase running = 3
phase result_ready = 2
phase reviewing = 1
phase _ = 0

-- Whether the run at hand may still execute the worker.
abbrev pub pending : RunState → ℕ
pending created = 1
pending ready = 1
pending retry_ready = 1
pending revision_ready = 1
pending dispatched = 1
pending _ = 0

abbrev pub budget_of : PolicyConfig → TaskRecord → ℕ
budget_of config r = left config r.revision_count r.retry_count

abbrev pub measure : PolicyConfig → TaskRecord → ℕ
measure config r = budget_of config r * 6 + phase r.state

abbrev pub chances : PolicyConfig → TaskRecord → ℕ
chances config r = budget_of config r + pending r.state

-- The saved result of the run at hand: the worker completed it, and it names this task and run.
pub record Succeeded (r : TaskRecord) (w : World) : Type 0 where
  pub run_id : String
  pub result : WorkerResult
  pub current : r.current_run_id ≡ some run_id
  pub stored : w.results run_id ≡ some result
  pub worked : result.status ≡ WorkerStatus.completed
  pub for_task : result.task_id ≡ r.task_id
  pub for_run : result.run_id ≡ run_id

-- A saved review of the run at hand, which names this task and run.
pub record Reviewed (r : TaskRecord) (w : World) (run_id : String) (review : Review) : Type 0 where
  pub current : r.current_run_id ≡ some run_id
  pub stored : w.reviews run_id ≡ some review
  pub for_task : review.task_id ≡ r.task_id
  pub for_run : review.run_id ≡ run_id

-- The supervisor passed the run at hand.
pub record Approved (r : TaskRecord) (w : World) : Type 0 where
  pub run_id : String
  pub review : Review
  pub reviewed : Reviewed r w run_id review
  pub passed : review.decision ≡ pass

-- What a state vouches for.
abbrev pub Vouched : RunState → TaskRecord → World → Type 0
Vouched result_ready r w = Succeeded r w
Vouched reviewing r w = Succeeded r w
Vouched completed r w = Succeeded r w × Approved r w
Vouched _ r w = Unit

-- A record with the same ids, in a world with the same results.
pub Succeeded-same :
    {r r' : TaskRecord} {w w' : World}
    → r'.task_id ≡ r.task_id
    → r'.current_run_id ≡ r.current_run_id
    → w'.results ≡ w.results
    → Succeeded r w
    → Succeeded r' w'
Succeeded-same t c e s = record {
  run_id = s.run_id;
  result = s.result;
  current = c ∙ s.current;
  stored = ap (λ f. f s.run_id) e ∙ s.stored;
  worked = s.worked;
  for_task = s.for_task ∙ sym t;
  for_run = s.for_run;
}

pub Reviewed-same :
    {r r' : TaskRecord} {w w' : World} {run_id : String} {review : Review}
    → r'.task_id ≡ r.task_id
    → r'.current_run_id ≡ r.current_run_id
    → w'.reviews ≡ w.reviews
    → Reviewed r w run_id review
    → Reviewed r' w' run_id review
Reviewed-same {run_id = id} t c e s = record {
  current = c ∙ s.current;
  stored = ap (λ f. f id) e ∙ s.stored;
  for_task = s.for_task ∙ sym t;
  for_run = s.for_run;
}

pub Vouched-same :
    (s : RunState) (r : TaskRecord) (w w' : World)
    → w'.results ≡ w.results
    → w'.reviews ≡ w.reviews
    → Vouched s r w
    → Vouched s r w'
Vouched-same result_ready r w w' e k h = Succeeded-same refl refl e h
Vouched-same reviewing r w w' e k h = Succeeded-same refl refl e h
Vouched-same completed r w w' e k h = (
  Succeeded-same refl refl e h.0,
  record {
    run_id = h.1.run_id;
    review = h.1.review;
    reviewed = Reviewed-same refl refl k h.1.reviewed;
    passed = h.1.passed;
  },
)
Vouched-same _ r w w' e k h = tt

-- From `r` in `w` the round returned `r'` in `w'`.
pub record Progress (config : PolicyConfig) (r : TaskRecord) (w : World) (r' : TaskRecord)
    (w' : World) : Type 0 where
  pub falls : measure config r' < measure config r
  pub saved : w'.records r'.task_id ≡ some r'
  pub same_task : r'.task_id ≡ r.task_id
  pub executions : length w'.handed + chances config r' ≤ length w.handed + chances config r
  pub sound : Vouched r.state r w → Vouched r'.state r' w'

-- How a round may throw: the supervisor is unavailable while the task is in review, and the
-- saved records are what they were.
pub record Suspended (r : TaskRecord) (w : World) (e : Failure) (w' : World) : Type 0 where
  pub message : String
  pub cause : e ≡ supervisor_unavailable message
  pub in_review : r.state ≡ reviewing
  pub kept : w'.records r.task_id ≡ w.records r.task_id
  pub handed : w'.handed ≡ w.handed

-- Or the store or a notification refused, and the worker was called as often as the limits allow.
pub record Halted (env : OrchestratorDependencies) (r : TaskRecord) (w : World) (e : Failure)
    (w' : World) : Type 0 where
  pub refused : Refused env e
  pub executions : length w'.handed ≤ length w.handed + chances env.policy r

-- A handler that does not ask the supervisor.
abbrev pub Lands :
    OrchestratorDependencies → TaskRecord → World → Outcome TaskRecord × World → Type 0
Lands env r w = Ensures (Progress env.policy r w) (Halted env r w)

abbrev pub Steps :
    OrchestratorDependencies → TaskRecord → World → Outcome TaskRecord × World → Type 0
Steps env r w = Ensures (Progress env.policy r w) (λ e w'. Suspended r w e w' ⊎ Halted env r w e w')

pub Steps-Lands :
    (env : OrchestratorDependencies) (r : TaskRecord) (w : World) (x : Outcome TaskRecord × World)
    → Lands env r w x
    → Steps env r w x
Steps-Lands env r w (ok r', w') h = h
Steps-Lands env r w (throw e, w') h = inr h

-- A refusal before the worker is called.
pub halts :
    (env : OrchestratorDependencies) (r : TaskRecord) (w w' : World)
    → length w'.handed ≡ length w.handed
    → (e : Failure) → Refused env e
    → Halted env r w e w'
halts env r w w' h e k = record { refused = k; executions = omega (arith, h) }

-- A refusal after progress.
pub halts_after :
    (env : OrchestratorDependencies) {r r' : TaskRecord} {w w' : World} (v : World)
    → Progress env.policy r w r' w'
    → v.handed ≡ w'.handed
    → (e : Failure) → Refused env e
    → Halted env r w e v
halts_after env v p h e k = record {
  refused = k;
  executions = omega (arith, p.executions, ap length h);
}

-- A round that ends in a move: `from` is the record that moved, of the task `r`.
pub land :
    {config : PolicyConfig} {r from r' : TaskRecord} {s : RunState} {w v w' : World}
    → Moved from s v r' w'
    → budget_of config from * 6 + phase s < measure config r
    → length v.handed + (budget_of config from + pending s) ≤ length w.handed + chances config r
    → from.task_id ≡ r.task_id
    → (Vouched r.state r w → Vouched s r' w')
    → Progress config r w r' w'
land {config} {r} {from} {r'} {s} {w} {v} {w'} m p q t k = record {
  falls = ground arith;
  saved = m.saved;
  same_task = m.task ∙ t;
  executions = ground arith;
  sound = λ h. subst (λ s'. Vouched s' r' w') (sym m.state) (k h);
}

pub Progress-trans :
    {config : PolicyConfig} {r r' r'' : TaskRecord} {w w' w'' : World}
    → Progress config r w r' w'
    → Progress config r' w' r'' w''
    → Progress config r w r'' w''
Progress-trans p q = record {
  falls = omega arith;
  saved = q.saved;
  same_task = q.same_task ∙ p.same_task;
  executions = omega arith;
  sound = λ h. q.sound (p.sound h);
}

-- A handler whose last step is a move from `from` in `v`.
pub moves-Lands :
    (env : OrchestratorDependencies) (r from : TaskRecord) (s : RunState) (w v : World)
    (x : Outcome TaskRecord × World)
    → length v.handed ≡ length w.handed
    → ((r' : TaskRecord) (w' : World) → Moved from s v r' w' → Progress env.policy r w r' w')
    → Ensures (Moved from s v) (Stops env v) x
    → Lands env r w x
moves-Lands env r from s w v x h k m =
    Ensures-map (Moved from s v) (Stops env v) _ _ x k
      (λ e w' q. halts env r w w' (ap length q.handed ∙ h) e q.refused) m

pub Lands-trans :
    (env : OrchestratorDependencies) (r r' : TaskRecord) (w w' : World)
    (x : Outcome TaskRecord × World)
    → Progress env.policy r w r' w'
    → Lands env r' w' x
    → Lands env r w x
Lands-trans env r r' w w' (ok r'', w'') p h = Progress-trans p h
Lands-trans env r r' w w' (throw e, w'') p h = record {
  refused = h.refused;
  executions = omega (arith, h.executions, p.executions);
}

-- The round began in a world that the earlier steps prepared.
pub Lands-from :
    (env : OrchestratorDependencies) (r : TaskRecord) (w w' : World)
    (x : Outcome TaskRecord × World)
    → length w'.handed ≡ length w.handed
    → (Vouched r.state r w → Vouched r.state r w')
    → Lands env r w' x
    → Lands env r w x
Lands-from env r w w' (ok r', w'') e k p = record {
  falls = p.falls;
  saved = p.saved;
  same_task = p.same_task;
  executions = omega (arith, p.executions, e);
  sound = λ h. p.sound (k h);
}
Lands-from env r w w' (throw f, w'') e k h = record {
  refused = h.refused;
  executions = omega (arith, h.executions, e);
}

pub block_task-Lands :
    (env : OrchestratorDependencies) (r : TaskRecord) (why : String) (extra : Extra) (w : World)
    → is_terminal r.state ≡ false
    → Lands env r w (block_task env r why extra w)
block_task-Lands env r why extra w h =
    moves-Lands env r r blocked w w _ refl
      (λ r' w' m. land m (ground arith) (ground arith) refl (λ v. tt))
      (block_task-Moved env r why extra w h)

-- A block of a task that has come closer to its end.
pub block_after :
    (env : OrchestratorDependencies) {r : TaskRecord} {w : World} (r' : TaskRecord) (w' : World)
    (why : String) (extra : Extra)
    → Progress env.policy r w r' w'
    → is_terminal r'.state ≡ false
    → Lands env r w (block_task env r' why extra w')
block_after env r' w' why extra p h =
    Lands-trans env _ r' _ w' (block_task env r' why extra w') p
      (block_task-Lands env r' why extra w' h)
