-- ===== src/Core/Policy.antt =====
-- core/policy-engine.ts. `allow` and `refuse` are the two shapes of `PolicyDecision`.
pub mod Decisions
use agent_supervisor_runtime.Base.{
  ℕ, ◌*◌, ◌-◌, String, Bool, true, false, ◌&&◌, ◌||◌, List, [], ◌∷◌, Option, none, some, ltb, leb,
  nat_eq, str_eq, any, if◌then◌else◌,
}
use agent_supervisor_runtime.Contracts.Task.{Task, Minutes, Budget}
use agent_supervisor_runtime.Contracts.State.{TaskRecord}
use agent_supervisor_runtime.Contracts.Review.{
  Review, ReviewFinding, Decision, pass, revise, ask_user, is_given,
}

pub record PolicyConfig : Type 0 where
  pub max_revisions : ℕ
  pub max_worker_retries : ℕ
  pub max_wall_clock_minutes : Option Minutes

pub data PolicyDecision : Type 0 where
  allow : PolicyDecision
  refuse : String → PolicyDecision

-- The constructor's default.
abbrev pub default_policy : PolicyConfig
default_policy = record { max_revisions = 3; max_worker_retries = 2; max_wall_clock_minutes = none }

unfoldable pub should_retry_worker : PolicyConfig → ℕ → PolicyDecision
should_retry_worker config retry_count =
    if ltb retry_count config.max_worker_retries
    then allow
    else refuse "WORKER_RETRY_LIMIT_EXCEEDED"

-- `task.budget?.maxWallClockMinutes ?? this.config.maxWallClockMinutes`
abbrev pub budget_minutes : Option Budget → Option Minutes
budget_minutes none = none
budget_minutes (some b) = b.max_wall_clock_minutes

abbrev pub or_else {ℓ} : {A : Type ℓ} → Option A → Option A → Option A
or_else none d = d
or_else (some a) d = some a

-- A clock that went back gives a negative elapsed time, which is within every limit, as 0 is.
abbrev pub over_limit : Option Minutes → Option ℕ → ℕ → Bool
over_limit none started now = false
over_limit (some limit) none now = false
over_limit (some limit) (some started) now =
    if nat_eq limit.num 0 then false else ltb (limit.num * 60000) ((now - started) * limit.den)

unfoldable pub check_runtime_budget : PolicyConfig → Task → TaskRecord → ℕ → PolicyDecision
check_runtime_budget config task r now =
    if over_limit (or_else (budget_minutes task.budget) config.max_wall_clock_minutes) r.started_at
      now
    then refuse "WALL_CLOCK_BUDGET_EXCEEDED"
    else allow

abbrev pub wants_user : ReviewFinding → Bool
wants_user f = elim f.requires_user_decision [ none ↦ false | some b ↦ b ]

-- Whether two findings carry the same fingerprint, one that is not empty.
abbrev pub same_fingerprint : ReviewFinding → ReviewFinding → Bool
same_fingerprint f g = elim f.fingerprint [
  | none ↦ false
  | some a ↦ elim g.fingerprint [ none ↦ false | some b ↦ is_given (some a) && str_eq a b ]
]

abbrev pub repeats : List ReviewFinding → Option Review → Bool
repeats findings none = false
repeats findings (some previous) =
    any (λ f. any (λ g. same_fingerprint f g) previous.findings) findings

-- `canAutoRevise` past its first test.
abbrev revisable : PolicyConfig → TaskRecord → Review → Option Review → PolicyDecision
revisable config r review previous =
    if any wants_user review.findings
    then refuse "USER_DECISION_REQUIRED"
    else if leb config.max_revisions r.revision_count
    then refuse "REVISION_LIMIT_EXCEEDED"
    else if repeats review.findings previous
    then refuse "REPEATED_UNRESOLVED_FINDING"
    else allow

abbrev by_decision : Decision → PolicyDecision → PolicyDecision
by_decision pass rest = refuse "NOT_A_REVISION"
by_decision ask_user rest = refuse "USER_DECISION_REQUIRED"
by_decision revise rest = rest

unfoldable pub can_auto_revise : PolicyConfig → TaskRecord → Review → Option Review → PolicyDecision
can_auto_revise config r review previous =
    by_decision review.decision (revisable config r review previous)
