-- ===== src/Contracts/Task.antt =====
-- contracts/task.ts. `maxWallClockMinutes` may be fractional: it is a ratio of two numbers.
use agent_supervisor_runtime.Base.{
  ℕ, String, Bool, true, not, ◌&&◌, List, [], ◌∷◌, Option, none, some, is_empty, ltb, any,
  if◌then◌else◌,
}
use agent_supervisor_runtime.Contracts.Identifiers.{state_identifier}

pub record Minutes : Type 0 where
  pub num : ℕ
  pub den : ℕ

pub record Artifacts : Type 0 where
  pub expected : Option (List String)
  pub forbidden : Option (List String)

pub record Execution : Type 0 where
  pub working_directory : String
  pub timeout_seconds : Option ℕ

pub record Budget : Type 0 where
  pub max_runs : Option ℕ
  pub max_wall_clock_minutes : Option Minutes

pub record Revision : Type 0 where
  pub parent_run_id : String
  pub revision_number : ℕ

pub record Task : Type 0 where
  pub task_id : String
  pub project_id : String
  pub objective : String
  pub context : Option String
  pub instructions : List String
  pub constraints : Option (List String)
  pub acceptance_criteria : List String
  pub artifacts : Option Artifacts
  pub execution : Execution
  pub budget : Option Budget
  pub revision : Option Revision

-- What arrives from outside: a value of the schema's shape, or any other.
pub data Raw {ℓ} (A : Type ℓ) : Type ℓ where
  junk : Raw A
  shaped : A → Raw A

-- z.string().min(1), and .optional() of a schema.
abbrev pub is_text : String → Bool
is_text s = not (is_empty s)

abbrev pub optional {ℓ} : {A : Type ℓ} → (A → Bool) → Option A → Bool
optional p none = true
optional p (some a) = p a

abbrev pub every {ℓ} : {A : Type ℓ} → (A → Bool) → List A → Bool
every p xs = not (any (λ x. not (p x)) xs)

abbrev pub is_nonempty {ℓ} : {A : Type ℓ} → List A → Bool
is_nonempty [] = not true
is_nonempty (x ∷ xs) = true

abbrev is_positive : ℕ → Bool
is_positive n = ltb 0 n

valid_artifacts : Artifacts → Bool
valid_artifacts a = optional (every is_text) a.expected && optional (every is_text) a.forbidden

valid_budget : Budget → Bool
valid_budget b =
    optional is_positive b.max_runs
    && optional (λ (m : Minutes). is_positive m.num && is_positive m.den) b.max_wall_clock_minutes

-- The checks of `TaskSchema` on a value of its shape.
unfoldable pub valid_task : Task → Bool
unfolding valid_artifacts valid_budget
valid_task t =
    state_identifier t.task_id
    && is_text t.project_id
    && is_text t.objective
    && is_nonempty t.instructions
    && every is_text t.instructions
    && optional (every is_text) t.constraints
    && is_nonempty t.acceptance_criteria
    && every is_text t.acceptance_criteria
    && optional valid_artifacts t.artifacts
    && is_text t.execution.working_directory
    && optional is_positive t.execution.timeout_seconds
    && optional valid_budget t.budget
    && optional (λ (r : Revision). is_text r.parent_run_id) t.revision

-- `TaskSchema.parse`; `none` is its throw.
unfoldable pub parse_task : Raw Task → Option Task
parse_task junk = none
parse_task (shaped t) = if valid_task t then some t else none
