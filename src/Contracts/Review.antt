-- ===== src/Contracts/Review.antt =====
-- contracts/review.ts.
use agent_supervisor_runtime.Base.{
  String, Bool, true, false, ◌&&◌, List, Option, none, some, if◌then◌else◌,
}
use agent_supervisor_runtime.Contracts.Task.{
  Raw, junk, shaped, is_text, optional, every, is_nonempty,
}

pub data Severity : Type 0 where
  info minor major critical : Severity

pub data Decision : Type 0 where
  pass revise ask_user : Decision

pub data Confidence : Type 0 where
  high medium low : Confidence

pub record ReviewFinding : Type 0 where
  pub severity : Severity
  pub category : String
  pub message : String
  pub fingerprint : Option String
  pub requires_user_decision : Option Bool

pub record Review : Type 0 where
  pub task_id : String
  pub run_id : String
  pub decision : Decision
  pub summary : String
  pub findings : List ReviewFinding
  pub revision_instructions : Option (List String)
  pub user_question : Option String
  pub confidence : Option Confidence

unfoldable pub valid_finding : ReviewFinding → Bool
valid_finding f = is_text f.category && is_text f.message && optional is_text f.fingerprint

-- A test for truth of an optional text.
abbrev pub is_given : Option String → Bool
is_given none = false
is_given (some s) = is_text s

abbrev has_instructions : Option (List String) → Bool
has_instructions none = false
has_instructions (some xs) = is_nonempty xs

-- The `superRefine` of the schema.
unfoldable pub refine_review : Decision → Review → Bool
refine_review pass r = true
refine_review revise r = has_instructions r.revision_instructions
refine_review ask_user r = is_given r.user_question

unfoldable pub valid_review : Review → Bool
valid_review r =
    is_text r.task_id
    && is_text r.run_id
    && is_text r.summary
    && every valid_finding r.findings
    && optional (every is_text) r.revision_instructions
    && optional is_text r.user_question
    && refine_review r.decision r

-- `ReviewSchema.parse`; `none` is its throw.
unfoldable pub parse_review : Raw Review → Option Review
parse_review junk = none
parse_review (shaped r) = if valid_review r then some r else none
