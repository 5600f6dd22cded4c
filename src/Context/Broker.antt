-- ===== src/Context/Broker.antt =====
-- context/broker.ts. The workspace policy, the sources of evidence, the
-- ids and the clock are parameters: functions of the number of calls made so far where they vary.
pub mod Accounts
pub mod Budget
pub mod Evidence
use Prim.Native.String.{◌++◌ as str_append}
use agent_supervisor_runtime.Base.{
  ℕ, suc, ◌+◌, ◌-◌, min, String, Bool, true, false, ◌&&◌, List, [], ◌∷◌, Option, none, some, Map,
  insert, remove, no_entries, length, str_eq, nat_eq, leb, is_some, is_empty, not, if◌then◌else◌,
}
use agent_supervisor_runtime.Contracts.Task.{is_text}
use agent_supervisor_runtime.Context.Contracts.{
  ContextCapability, execution_summary, test_summary, git_status, git_diff, changed_files,
  read_file, search_workspace, list_directory, Ids, ContextScope, ContextQuery, ContextRequest,
  ContextResponse, ContextError, context_policy_violation, context_ref_not_found,
  context_scope_mismatch, context_budget_exceeded, context_continuation_invalid, ContextResult, ok,
  throw, valid_ids, Selector, by_ref, by_continuation, by_query, parse_context_request, scope_key,
  same_ids,
}
use agent_supervisor_runtime.Context.Summary.{summarize}
use agent_supervisor_runtime.Context.Text.{Content, byte_length, Pieces, split_utf8}

pub record EvidenceRecord : Type 0 where
  pub ref : String
  pub ids : Ids
  pub capability : ContextCapability
  pub content : Content

pub record ContinuationRecord : Type 0 where
  pub token : String
  pub ids : Ids
  pub capability : ContextCapability
  pub remaining : Content
  pub expires_at : ℕ

pub record ContextBroker : Type 0 where
  pub scopes : Map ContextScope
  pub refs : Map EvidenceRecord
  pub continuations : Map ContinuationRecord
  pub cycle_usage : Map ℕ
  pub id_calls : ℕ
  pub ticks : ℕ
  pub reads : ℕ

-- The options, after `positiveBudget`, and the parameters.
pub record Options : Type 0 where
  pub response_budget_bytes : ℕ
  pub review_cycle_budget_bytes : ℕ
  pub continuation_ttl_ms : ℕ
  pub new_id : ℕ → String
  pub trim : Content → Content
  pub now : ℕ → ℕ
  pub canonical_root : ℕ → String → ContextResult String
  pub read_source :
      ℕ
      → ContextScope
      → ContextCapability
      → Option String
      → Option String
      → ContextResult (Option Content)

abbrev pub used : Option ℕ → ℕ
used none = 0
used (some n) = n

abbrev pub or_empty : ContextResult (Option Content) → ContextResult Content
or_empty (throw x) = throw x
or_empty (ok none) = ok []
or_empty (ok (some c)) = ok c

abbrev pub Fetched : Type 0
Fetched = ContextResult ContextResponse × ContextBroker

abbrev pub empty_broker : ContextBroker
empty_broker = record {
  scopes = no_entries;
  refs = no_entries;
  continuations = no_entries;
  cycle_usage = no_entries;
  id_calls = 0;
  ticks = 0;
  reads = 0;
}

abbrev pub bill : String → ℕ → ContextBroker → ContextBroker
bill key bytes b = record b {
  cycle_usage = insert key (used (b.cycle_usage key) + bytes) b.cycle_usage;
}

pub data BrokerCall : Type 0 where
  creates : ContextScope → BrokerCall
  fetches : ContextRequest → BrokerCall

pub record ContextManifestItem : Type 0 where
  pub ref : String
  pub capability : ContextCapability
  pub summary : Content
  pub size : ℕ

abbrev pub Manifest : Type 0
Manifest = ContextResult (List ContextManifestItem) × ContextBroker

abbrev pub with_item : ContextManifestItem → Manifest → Manifest
with_item item (throw x, b) = (throw x, b)
with_item item (ok items, b) = (ok (item ∷ items), b)

abbrev pub git_evidence : List ContextCapability
git_evidence = git_status ∷ git_diff ∷ changed_files ∷ []

module _ (o : Options) where
  abbrev pub token_of : ContextBroker → String
  token_of b = str_append "cont_" (o.new_id b.id_calls)

  -- The end of `#deliver`: a continuation for what is left, if anything is.
  abbrev pub answer : Ids → ContextCapability → Content → Content → ContextBroker → Fetched
  answer ids c head [] b =
      (ok (record { capability = c; content = head; truncated = false; continuation = none }), b)
  answer ids c head (x ∷ xs) b = (
    ok (record {
      capability = c;
      content = head;
      truncated = true;
      continuation = some (token_of b);
    }),
    record b {
      continuations =
          insert (token_of b)
            (record {
              token = token_of b;
              ids = ids;
              capability = c;
              remaining = x ∷ xs;
              expires_at = o.now b.ticks + o.continuation_ttl_ms;
            })
            b.continuations;
      id_calls = suc b.id_calls;
      ticks = suc b.ticks;
    },
  )

  abbrev pub deliver_pieces : Ids → ContextCapability → Option Pieces → ContextBroker → Fetched
  deliver_pieces ids c none b = (throw context_budget_exceeded, b)
  deliver_pieces ids c (some p) b =
      answer ids c p.head p.tail (bill (scope_key ids) (byte_length p.head) b)

  abbrev pub budget_left : Ids → ContextBroker → ℕ
  budget_left ids b = o.review_cycle_budget_bytes - used (b.cycle_usage (scope_key ids))

  unfoldable pub deliver : ContextScope → ContextCapability → Content → ContextBroker → Fetched
  deliver s c content b =
      if leb o.review_cycle_budget_bytes (used (b.cycle_usage (scope_key s.ids)))
      then (throw context_budget_exceeded, b)
      else deliver_pieces s.ids c
          (split_utf8 content (min o.response_budget_bytes (budget_left s.ids b))) b

  abbrev pub deliver_ref : ContextScope → Option EvidenceRecord → ContextBroker → Fetched
  deliver_ref s none b = (throw context_ref_not_found, b)
  deliver_ref s (some r) b =
      if same_ids r.ids s.ids
      then deliver s r.capability r.content b
      else (throw context_scope_mismatch, b)

  abbrev pub fetch_ref : ContextScope → String → ContextBroker → Fetched
  fetch_ref s ref b = deliver_ref s (b.refs ref) b

  abbrev pub drop : String → ContextBroker → ContextBroker
  drop token b = record b { continuations = remove token b.continuations; ticks = suc b.ticks }

  abbrev pub deliver_rest :
      ContextScope → String → Option ContinuationRecord → ContextBroker → Fetched
  deliver_rest s token none b = (throw context_continuation_invalid, b)
  deliver_rest s token (some r) b =
      if same_ids r.ids s.ids
      then if leb r.expires_at (o.now b.ticks)
        then (throw context_continuation_invalid, drop token b)
        else deliver s r.capability r.remaining (drop token b)
      else (throw context_scope_mismatch, b)

  abbrev pub fetch_continuation : ContextScope → String → ContextBroker → Fetched
  fetch_continuation s token b = deliver_rest s token (b.continuations token) b

  abbrev pub or_dot : Option String → Option String
  or_dot none = some "."
  or_dot (some path) = some path

  abbrev pub read :
      ContextScope → ContextCapability → Option String → Option String → ℕ → ContextResult Content
  read s c path query reads = or_empty (o.read_source reads s c path query)

  -- The files are read below the policy's root, the rest in the scope.
  unfoldable pub run_query :
      String
      → ContextScope
      → ContextCapability
      → Option String
      → Option String
      → ℕ
      → ContextResult Content
  run_query root s read_file none query n = throw context_policy_violation
  run_query root s read_file (some path) query n =
      if is_empty path
      then throw context_policy_violation
      else read (record s { workspace_root = root }) read_file (some path) none n
  run_query root s list_directory path query n =
      read (record s { workspace_root = root }) list_directory (or_dot path) none n
  run_query root s search_workspace path none n = throw context_policy_violation
  run_query root s search_workspace path (some query) n =
      if is_empty query
      then throw context_policy_violation
      else read (record s { workspace_root = root }) search_workspace (or_dot path) (some query) n
  run_query root s c path query n = read s c none none n

  abbrev pub deliver_read :
      ContextScope → ContextCapability → ContextResult Content → ContextBroker → Fetched
  deliver_read s c (throw x) b = (throw x, b)
  deliver_read s c (ok content) b = deliver s c content b

  abbrev pub fetch_query :
      ContextScope
      → ContextCapability
      → ContextQuery
      → ContextResult String
      → ContextBroker
      → Fetched
  fetch_query s c q (throw x) b = (throw x, b)
  fetch_query s c q (ok root) b =
      deliver_read s c (run_query root s c q.path q.query b.reads)
        (record b { reads = suc b.reads })

  abbrev pub fetch_selected : ContextScope → Selector → ContextBroker → Fetched
  fetch_selected s (by_ref ref) b = fetch_ref s ref b
  fetch_selected s (by_continuation token) b = fetch_continuation s token b
  fetch_selected s (by_query c q) b =
      fetch_query s c q (o.canonical_root b.reads s.workspace_root) b

  abbrev pub fetch_in : Option ContextScope → Selector → ContextBroker → Fetched
  fetch_in none selector b = (throw context_scope_mismatch, b)
  fetch_in (some s) selector b = fetch_selected s selector b

  abbrev pub fetch_parsed : Ids → ContextResult Selector → ContextBroker → Fetched
  fetch_parsed ids (throw x) b = (throw x, b)
  fetch_parsed ids (ok selector) b = fetch_in (b.scopes (scope_key ids)) selector b

  unfoldable pub fetch : ContextRequest → ContextBroker → Fetched
  unfolding parse_context_request
  fetch r b = fetch_parsed r.ids (parse_context_request r) b

  abbrev pub ref_of : ContextBroker → String
  ref_of b = str_append "ctx_" (o.new_id b.id_calls)

  abbrev pub register_evidence :
      ContextScope → ContextCapability → Content → ContextBroker → ContextBroker
  register_evidence s c content b = record b {
    refs =
        insert (ref_of b)
          (record { ref = ref_of b; ids = s.ids; capability = c; content = content }) b.refs;
    id_calls = suc b.id_calls;
  }

  abbrev pub item_of : ContextCapability → Content → ContextBroker → ContextManifestItem
  item_of c content b = record {
    ref = ref_of b;
    capability = c;
    summary = summarize o.trim content;
    size = byte_length content;
  }

  -- One turn of the loop over the evidence of git, which leaves out what cannot be read.
  abbrev pub collect :
      ContextScope
      → ContextCapability
      → ContextResult (Option Content)
      → (ContextBroker → Manifest)
      → ContextBroker
      → Manifest
  collect s c (throw x) later b = later b
  collect s c (ok none) later b = later b
  collect s c (ok (some content)) later b =
      with_item (item_of c content b) (later (register_evidence s c content b))

  unfoldable pub collect_all : ContextScope → List ContextCapability → ContextBroker → Manifest
  collect_all s [] b = (ok [], b)
  collect_all s (c ∷ cs) b =
      collect s c (o.read_source b.reads s c none none) (λ b'. collect_all s cs b')
        (record b { reads = suc b.reads })

  -- The two summaries are both read before either is registered.
  abbrev pub collect_from :
      ContextScope
      → ContextResult (Option Content)
      → ContextResult (Option Content)
      → ContextBroker
      → Manifest
  collect_from s (throw x) tests b = (throw x, b)
  collect_from s (ok execution) (throw x) b = (throw x, b)
  collect_from s (ok execution) (ok tests) b =
      collect s execution_summary (ok execution)
        (collect s test_summary (ok tests) (collect_all s git_evidence)) b

  abbrev pub create_for : ContextScope → ContextResult String → ContextBroker → Manifest
  create_for s (throw x) b = (throw x, b)
  create_for s (ok root) b =
      let scope : ContextScope = record s { workspace_root = root } in
      collect_from scope (o.read_source b.reads scope execution_summary none none)
        (o.read_source (suc b.reads) scope test_summary none none)
        (record b { scopes = insert (scope_key s.ids) scope b.scopes; reads = suc (suc b.reads) })

  unfoldable pub create_manifest : ContextScope → ContextBroker → Manifest
  unfolding collect_all
  create_manifest s b =
      if valid_ids s.ids && is_text s.workspace_root
      then create_for s (o.canonical_root b.reads s.workspace_root) b
      else (throw context_policy_violation, b)

  unfoldable pub step : BrokerCall → ContextBroker → ContextBroker
  unfolding create_manifest fetch
  step (creates s) b = (create_manifest s b).1
  step (fetches r) b = (fetch r b).1
