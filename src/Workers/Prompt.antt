-- ===== src/Workers/Prompt.antt =====
-- workers/prompt-compiler.ts: the prompts as lists of lines and as the text that joins them.
use Prim.Native.String.{◌++◌ as str_append}
use agent_supervisor_runtime.Base.{
  ℕ, zero, suc, ◌/◌, ◌%◌, String, List, [], ◌∷◌, ◌++◌, map, Option, none, some, nat_eq, ltb, keep,
  if◌then◌else◌,
}
use agent_supervisor_runtime.Contracts.Task.{Task, is_text}
use agent_supervisor_runtime.Contracts.Result.{WorkerResult}
use agent_supervisor_runtime.Contracts.Review.{Review}

digit : ℕ → String
digit d =
    if nat_eq d 0
    then "0"
    else if nat_eq d 1
    then "1"
    else if nat_eq d 2
    then "2"
    else if nat_eq d 3
    then "3"
    else if nat_eq d 4
    then "4"
    else if nat_eq d 5
    then "5"
    else if nat_eq d 6
    then "6"
    else if nat_eq d 7
    then "7"
    else if nat_eq d 8
    then "8"
    else "9"

-- A number in a template literal. A number has fewer digits than its successor counts.
decimal_within : ℕ → ℕ → String
decimal_within zero n = ""
decimal_within (suc f) n =
    let higher = decimal_within f (n / 10) in
    if ltb n 10 then digit n else str_append higher (digit (n % 10))

unfoldable pub decimal : ℕ → String
unfolding decimal_within digit
decimal n = decimal_within (suc n) n

-- `${n}. ${item}` and `- ${item}`
unfoldable pub numbered_item : ℕ → String → String
numbered_item n item = str_append (decimal n) (str_append ". " item)

unfoldable pub bullet : String → String
bullet item = str_append "- " item

unfoldable pub numbered : ℕ → List String → List String
numbered n [] = []
numbered n (x ∷ xs) = numbered_item n x ∷ numbered (suc n) xs

abbrev pub constraint_lines : Option (List String) → List String
constraint_lines none = "- Follow repository safety and task boundaries." ∷ []
constraint_lines (some xs) = map bullet xs

abbrev context_line : Option String → String
context_line none = ""
context_line (some c) = if is_text c then str_append "\n## Context\n" c else ""

-- The array literal of `compileWorkerPrompt`, before the filter.
unfoldable pub worker_sections : Task → String → List String
worker_sections task run_id =
    "# Worker Task"
    ∷ ""
    ∷ str_append "Task ID: " task.task_id
    ∷ str_append "Run ID: " run_id
    ∷ ""
    ∷ "## Objective"
    ∷ task.objective
    ∷ context_line task.context
    ∷ ""
    ∷ "## Required Work"
    ∷ (numbered 1 task.instructions
        ++ (""
            ∷ "## Constraints"
            ∷ (constraint_lines task.constraints
                ++ (""
                    ∷ "## Acceptance Criteria"
                    ∷ (map bullet task.acceptance_criteria
                        ++ ("" ∷ "## Repository Rules"
                            ∷ "Read AGENTS.md and any applicable repository instructions before modifying files."
                            ∷ "" ∷ "## Reporting Requirements"
                            ∷ "Report a concise summary, changed files, commands/tests run, verification results, warnings, and unresolved issues."
                            ∷ []))))))

-- The lines that `.filter(Boolean)` leaves.
unfoldable pub worker_lines : Task → String → List String
worker_lines task run_id = keep is_text (worker_sections task run_id)

-- `.join("\n")`
unfoldable pub join : List String → String
join [] = ""
join (x ∷ []) = x
join (x ∷ y ∷ ys) = str_append x (str_append "\n" (join (y ∷ ys)))

unfoldable pub compile_worker_prompt : Task → String → String
unfolding worker_lines worker_sections numbered numbered_item bullet decimal join
compile_worker_prompt task run_id = join (worker_lines task run_id)

abbrev instructions_of : Option (List String) → List String
instructions_of none = []
instructions_of (some xs) = xs

unfoldable pub revision_lines : Task → String → WorkerResult → Review → List String
revision_lines task run_id previous_result review =
    compile_worker_prompt task run_id
    ∷ ""
    ∷ "## Revision Context"
    ∷ str_append "Previous result: " previous_result.summary
    ∷ str_append "Supervisor review: " review.summary
    ∷ ""
    ∷ "## Required Revision"
    ∷ (numbered 1 (instructions_of review.revision_instructions)
        ++ (""
            ∷ "Do not broaden the task objective. Preserve already-correct work unless a revision instruction requires changing it."
            ∷ []))

unfoldable pub compile_revision_prompt : Task → String → WorkerResult → Review → String
unfolding revision_lines join
compile_revision_prompt task run_id previous_result review =
    join (revision_lines task run_id previous_result review)
