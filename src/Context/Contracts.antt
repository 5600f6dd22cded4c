-- ===== src/Context/Contracts.antt =====
-- context/contracts.ts, and what a request must be before the broker looks at it.
use Prim.Native.String.{◌++◌ as str_append}
use agent_supervisor_runtime.Base.{
  ℕ, ◌+◌, String, Bool, false, ◌&&◌, Option, none, some, str_eq, nat_eq, is_some, not,
  if◌then◌else◌,
}
use agent_supervisor_runtime.Contracts.Task.{is_text, optional}
use agent_supervisor_runtime.Context.Text.{Content}

pub data ContextCapability : Type 0 where
  execution_summary test_summary git_status git_diff changed_files : ContextCapability
  read_file search_workspace list_directory : ContextCapability

pub record Ids : Type 0 where
  pub binding_id : String
  pub task_id : String
  pub run_id : String

pub record ContextScope : Type 0 where
  pub ids : Ids
  pub workspace_root : String

-- A query, its capability still the text that came in.
pub record ContextQuery : Type 0 where
  pub capability : String
  pub path : Option String
  pub query : Option String

pub record ContextRequest : Type 0 where
  pub ids : Ids
  pub ref : Option String
  pub query : Option ContextQuery
  pub continuation : Option String

pub record ContextResponse : Type 0 where
  pub capability : ContextCapability
  pub content : Content
  pub truncated : Bool
  pub continuation : Option String

pub data ContextError : Type 0 where
  context_policy_violation context_ref_not_found context_scope_mismatch : ContextError
  context_budget_exceeded context_continuation_invalid : ContextError
  context_capability_unsupported source_failed : ContextError

pub data ContextResult {ℓ} (A : Type ℓ) : Type ℓ where
  ok : A → ContextResult A
  throw : ContextError → ContextResult A

abbrev pub capability_of : String → Option ContextCapability
capability_of s =
    if str_eq s "execution_summary"
    then some execution_summary
    else if str_eq s "test_summary"
    then some test_summary
    else if str_eq s "git_status"
    then some git_status
    else if str_eq s "git_diff"
    then some git_diff
    else if str_eq s "changed_files"
    then some changed_files
    else if str_eq s "read_file"
    then some read_file
    else if str_eq s "search_workspace"
    then some search_workspace
    else if str_eq s "list_directory"
    then some list_directory
    else none

abbrev pub valid_ids : Ids → Bool
valid_ids i = is_text i.binding_id && (is_text i.task_id && is_text i.run_id)

abbrev pub count {ℓ} : {A : Type ℓ} → Option A → ℕ
count none = 0
count (some a) = 1

-- What a request selects, once it has passed `parseContextRequest`.
pub data Selector : Type 0 where
  by_ref by_continuation : String → Selector
  by_query : ContextCapability → ContextQuery → Selector

-- The first selector that is given, in the order in which `fetch` asks.
abbrev pub select : Option String → Option String → Option ContextQuery → ContextResult Selector
select (some r) c q = ok (by_ref r)
select none (some t) q = ok (by_continuation t)
select none none none = throw context_policy_violation
select none none (some q) = elim (capability_of q.capability) [
  | none ↦ throw context_capability_unsupported
  | some c ↦ ok (by_query c q)
]

abbrev pub unsupported : Option ContextQuery → Bool
unsupported none = false
unsupported (some q) = not (is_some (capability_of q.capability))

unfoldable pub parse_context_request : ContextRequest → ContextResult Selector
parse_context_request r =
    if unsupported r.query
    then throw context_capability_unsupported
    else if valid_ids r.ids
        && (optional is_text r.ref
            && (optional is_text r.continuation
                && nat_eq (count r.ref + count r.query + count r.continuation) 1))
    then select r.ref r.continuation r.query
    else throw context_policy_violation

abbrev pub scope_key : Ids → String
scope_key i =
    str_append i.binding_id (str_append "\0" (str_append i.task_id (str_append "\0" i.run_id)))

abbrev pub same_ids : Ids → Ids → Bool
same_ids a b =
    str_eq a.binding_id b.binding_id && (str_eq a.task_id b.task_id && str_eq a.run_id b.run_id)
