-- ===== src/Examples/Context.antt =====
-- The context broker at concrete inputs.
use agent_supervisor_runtime.Base.{
  ◌≤◌, ◌<◌, true, List, [], ◌∷◌, none, some, ◌≡◌, ◌≢◌, ◌⊎◌, refl, insert, no_entries,
}
use agent_supervisor_runtime.Context.Text.{Content, Pieces, split_utf8}
use agent_supervisor_runtime.Context.Text.Split.{IsSplit, IsFull, split_utf8-IsSplit}
use agent_supervisor_runtime.Context.Contracts.{
  execution_summary, Ids, ContextScope, ContextRequest, ContextResponse, scope_key, ok, same_ids,
}
use agent_supervisor_runtime.Context.Broker.{
  Options, ContextBroker, EvidenceRecord, ContinuationRecord, empty_broker, BrokerCall, creates,
  fetches, fetch_ref, fetch_continuation, deliver,
}
use agent_supervisor_runtime.Context.Broker.Budget.{delivered, delivered-le}
use agent_supervisor_runtime.Context.Broker.Evidence.{
  Serves, fetch_ref-Serves, fetch_continuation-Serves,
}

abbrev ids : Ids
ids = record { binding_id = "b"; task_id = "t"; run_id = "r" }

abbrev scope : ContextScope
scope = record { ids = ids; workspace_root = "/w" }

-- "a", the euro sign and "b": one, three and one bytes.
abbrev content : Content
content = 97 ∷ 8364 ∷ 98 ∷ []

abbrev options : Options
options = record {
  response_budget_bytes = 4;
  review_cycle_budget_bytes = 6;
  continuation_ttl_ms = 100;
  new_id = λ n. "1";
  trim = λ content. content;
  now = λ n. n;
  canonical_root = λ n root. ok root;
  read_source = λ n s c path query. ok (some content);
}

abbrev filed : ContextBroker
filed = record empty_broker {
  scopes = insert (scope_key ids) scope no_entries;
  refs =
      insert "ctx_0"
        (record { ref = "ctx_0"; ids = ids; capability = execution_summary; content = content })
        no_entries;
  continuations =
      insert "cont_0"
        (record {
          token = "cont_0";
          ids = ids;
          capability = execution_summary;
          remaining = content;
          expires_at = 100;
        })
        no_entries;
}

abbrev first_piece : ContextResponse
first_piece = record {
  capability = execution_summary;
  content = 97 ∷ 8364 ∷ [];
  truncated = true;
  continuation = some "cont_1";
}

split_utf8-IsSplit_example :
    ((p : Pieces) × (split_utf8 content 4 ≡ some p) × IsSplit content 4 p)
    ⊎ ((split_utf8 content 4 ≡ none) × (content ≢ []) × IsFull 4 0 content)
split_utf8-IsSplit_example = split_utf8-IsSplit content 4

abbrev request : ContextRequest
request = record { ids = ids; ref = some "ctx_1"; query = none; continuation = none }

abbrev calls : List BrokerCall
calls = creates scope ∷ fetches request ∷ fetches request ∷ []

delivered-le_example : delivered options (scope_key ids) calls empty_broker ≤ 6
delivered-le_example = delivered-le options (scope_key ids) calls

fetch_ref-Serves_example :
    (e : EvidenceRecord) × (filed.refs "ctx_0" ≡ some e)
    × (same_ids e.ids ids ≡ true)
    × Serves options ids e.capability e.content first_piece
        (fetch_ref options scope "ctx_0" filed).1
fetch_ref-Serves_example =
    fetch_ref-Serves options scope "ctx_0" filed first_piece (unfold deliver split_utf8 in refl)

fetch_continuation-Serves_example :
    (k : ContinuationRecord) × (filed.continuations "cont_0" ≡ some k)
    × (same_ids k.ids ids ≡ true)
    × (0 < k.expires_at)
    × Serves options ids k.capability k.remaining first_piece
        (fetch_continuation options scope "cont_0" filed).1
    × (first_piece.continuation ≢ some "cont_0"
        → (fetch_continuation options scope "cont_0" filed).1.continuations "cont_0" ≡ none)
fetch_continuation-Serves_example =
    fetch_continuation-Serves options scope "cont_0" filed first_piece
      (unfold deliver split_utf8 in refl)
