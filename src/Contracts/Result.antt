-- ===== src/Contracts/Result.antt =====
-- contracts/result.ts. An exit code is kept as its distance from 0 with a sign.
use agent_supervisor_runtime.Base.{ℕ, String, Bool, ◌&&◌, List, Option}
use agent_supervisor_runtime.Contracts.Task.{is_text, optional, every}

pub data WorkerStatus : Type 0 where
  completed failed cancelled : WorkerStatus

pub data ExitCode : Type 0 where
  exit_code : ℕ → ExitCode
  negative : ℕ → ExitCode

pub record CommandResult : Type 0 where
  pub command : String
  pub exit_code : Option ExitCode
  pub duration_ms : ℕ
  pub stdout_path : Option String
  pub stderr_path : Option String

pub record VerificationResult : Type 0 where
  pub command : String
  pub passed : Bool
  pub exit_code : Option ExitCode
  pub duration_ms : ℕ
  pub stdout_path : Option String
  pub stderr_path : Option String

pub record ArtifactRef : Type 0 where
  pub path : String
  pub kind : Option String

pub record MachineEvidence : Type 0 where
  pub process_exit_code : Option ExitCode
  pub timed_out : Bool
  pub stdout_path : Option String
  pub stderr_path : Option String
  pub diff_path : Option String
  pub git_status : Option String
  pub diff_stat : Option String

pub record GitInfo : Type 0 where
  pub branch : Option String
  pub commit : Option String
  pub diff_stat : Option String

pub record WorkerResult : Type 0 where
  pub run_id : String
  pub task_id : String
  pub status : WorkerStatus
  pub summary : String
  pub changed_files : List String
  pub commands : List CommandResult
  pub verification : List VerificationResult
  pub artifacts : List ArtifactRef
  pub git : Option GitInfo
  pub machine_evidence : MachineEvidence
  pub warnings : Option (List String)
  pub unresolved_issues : Option (List String)
  pub started_at : ℕ
  pub completed_at : ℕ

-- The instants and the durations are numbers here, which their schemas admit.
abbrev valid_artifact : ArtifactRef → Bool
valid_artifact a = is_text a.path && optional is_text a.kind

unfoldable pub valid_result : WorkerResult → Bool
valid_result r = is_text r.run_id && (is_text r.task_id && every valid_artifact r.artifacts)
