-- ===== src/Companion/Page.antt =====
-- page-driver/contracts.ts and page-driver/compatibility.ts: what a page driver reports.
use agent_supervisor_runtime.Base.{String, Bool, not, List, [], ◌∷◌, keep}

pub record PageCapabilityReport : Type 0 where
  pub conversation_identity : Bool
  pub composer : Bool
  pub submit : Bool
  pub assistant_messages : Bool
  pub generation_lifecycle : Bool

pub data Capability : Type 0 where
  conversation_identity composer submit assistant_messages generation_lifecycle : Capability

pub data PageCompatibilityStatus : Type 0 where
  compatible incompatible : PageCompatibilityStatus

pub record PageCompatibility : Type 0 where
  pub report : PageCapabilityReport
  pub status : PageCompatibilityStatus
  pub missing : List Capability

pub data PageMessageRole : Type 0 where
  user assistant : PageMessageRole

pub record PageMessage : Type 0 where
  pub id : String
  pub role : PageMessageRole
  pub content : String

pub data GenerationState : Type 0 where
  idle generating interrupted error : GenerationState

abbrev pub capability_names : List Capability
capability_names =
    conversation_identity ∷ composer ∷ submit ∷ assistant_messages ∷ generation_lifecycle ∷ []

-- `report[capability]`
abbrev pub has : PageCapabilityReport → Capability → Bool
has r conversation_identity = r.conversation_identity
has r composer = r.composer
has r submit = r.submit
has r assistant_messages = r.assistant_messages
has r generation_lifecycle = r.generation_lifecycle

abbrev pub status_of : List Capability → PageCompatibilityStatus
status_of [] = compatible
status_of (c ∷ cs) = incompatible

unfoldable pub evaluate_page_compatibility : PageCapabilityReport → PageCompatibility
evaluate_page_compatibility r = record {
  report = r;
  status = status_of (keep (λ c. not (has r c)) capability_names);
  missing = keep (λ c. not (has r c)) capability_names;
}
