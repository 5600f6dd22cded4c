-- ===== src/Chatgpt/Packet.antt =====
-- chatgpt/review-packet.ts: the compact packet of a review. The size of its JSON text is a parameter.
use agent_supervisor_runtime.Base.{
  ℕ, String, Bool, not, List, map, Option, none, some, length, keep, ltb, if◌then◌else◌,
}
use agent_supervisor_runtime.Contracts.Task.{Task, Revision}
use agent_supervisor_runtime.Contracts.Result.{WorkerResult, WorkerStatus, VerificationResult}
use agent_supervisor_runtime.Context.Broker.{ContextManifestItem}

pub record PacketTask : Type 0 where
  pub task_id : String
  pub objective : String
  pub acceptance_criteria : List String
  pub revision_number : ℕ

pub record PacketWorker : Type 0 where
  pub run_id : String
  pub status : WorkerStatus
  pub summary : String

pub record PacketFiles : Type 0 where
  pub files : ℕ
  pub paths : List String

pub record PacketTests : Type 0 where
  pub total : ℕ
  pub passed : ℕ
  pub failed : ℕ
  pub commands : List String

pub record CompactReviewPacket : Type 0 where
  pub task : PacketTask
  pub worker : PacketWorker
  pub changed_files : PacketFiles
  pub tests : PacketTests
  pub evidence : List ContextManifestItem

abbrev pub revision_of : Option Revision → ℕ
revision_of none = 0
revision_of (some r) = r.revision_number

abbrev pub has_passed : VerificationResult → Bool
has_passed v = v.passed

abbrev pub has_failed : VerificationResult → Bool
has_failed v = not v.passed

abbrev pub command_of : VerificationResult → String
command_of v = v.command

unfoldable pub packet_of : Task → WorkerResult → List ContextManifestItem → CompactReviewPacket
packet_of task result available = record {
  task = record {
    task_id = task.task_id;
    objective = task.objective;
    acceptance_criteria = task.acceptance_criteria;
    revision_number = revision_of task.revision;
  };
  worker = record { run_id = result.run_id; status = result.status; summary = result.summary };
  changed_files = record { files = length result.changed_files; paths = result.changed_files };
  tests = record {
    total = length result.verification;
    passed = length (keep has_passed result.verification);
    failed = length (keep has_failed result.verification);
    commands = map command_of result.verification;
  };
  evidence = available;
}

-- `none` is the throw of REVIEW_PACKET_TOO_LARGE.
unfoldable pub compile_review_packet :
    (CompactReviewPacket → ℕ)
    → Task
    → WorkerResult
    → List ContextManifestItem
    → ℕ
    → Option CompactReviewPacket
unfolding packet_of
compile_review_packet json_size task result available max_bytes =
    let packet = packet_of task result available in
    if ltb max_bytes (json_size packet) then none else some packet
