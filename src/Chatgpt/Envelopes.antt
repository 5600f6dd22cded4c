-- ===== src/Chatgpt/Envelopes.antt =====
-- chatgpt/contracts.ts: the envelopes of the protocol, and what a reply may parse to.
use agent_supervisor_runtime.Base.{
  ℕ, ◌+◌, String, Bool, ◌&&◌, List, Option, none, some, is_some, nat_eq, if◌then◌else◌,
}
use agent_supervisor_runtime.Contracts.Task.{Raw, junk, shaped, is_text, optional}
use agent_supervisor_runtime.Contracts.Review.{Decision}
use agent_supervisor_runtime.Context.Contracts.{
  Ids, ContextQuery, ContextResponse, ContextError, capability_of, count, valid_ids,
}

pub data AsrMessageKind : Type 0 where
  plan_request plan review_request review context_request context_response : AsrMessageKind
  notification : AsrMessageKind

-- The text of a kind, as the ledger holds it.
abbrev pub kind_text : AsrMessageKind → String
kind_text plan_request = "PLAN_REQUEST"
kind_text plan = "PLAN"
kind_text review_request = "REVIEW_REQUEST"
kind_text review = "REVIEW"
kind_text context_request = "CONTEXT_REQUEST"
kind_text context_response = "CONTEXT_RESPONSE"
kind_text notification = "NOTIFICATION"

pub record AsrEnvelope : Type 0 where
  pub message_id : String
  pub ids : Ids
  pub kind : AsrMessageKind
  pub sequence : ℕ
  pub correlation_id : Option String

abbrev pub valid_envelope : AsrEnvelope → Bool
valid_envelope e = is_text e.message_id && (valid_ids e.ids && optional is_text e.correlation_id)

pub record SupervisorReplyEnvelope : Type 0 where
  pub message_id : String
  pub in_reply_to : String
  pub ids : Ids
  pub decision : Decision
  pub findings : List String
  pub instruction : Option String

abbrev pub valid_reply : SupervisorReplyEnvelope → Bool
valid_reply r = is_text r.message_id && (is_text r.in_reply_to && valid_ids r.ids)

pub record ContextRequestEnvelope : Type 0 where
  pub message_id : String
  pub in_reply_to : String
  pub ids : Ids
  pub ref : Option String
  pub query : Option ContextQuery
  pub continuation : Option String

abbrev pub valid_query : ContextQuery → Bool
valid_query q = is_some (capability_of q.capability)

-- With the `superRefine`: exactly one selector.
abbrev pub valid_request : ContextRequestEnvelope → Bool
valid_request r =
    is_text r.message_id
    && (is_text r.in_reply_to
        && (valid_ids r.ids
            && (optional is_text r.ref
                && (optional valid_query r.query
                    && (optional is_text r.continuation
                        && nat_eq (count r.ref + count r.query + count r.continuation) 1)))))

-- The payload of a CONTEXT_RESPONSE: a response, or the code of an error.
pub data ContextPayload : Type 0 where
  response : ContextResponse → ContextPayload
  broker_error : ContextError → ContextPayload
  capability_unavailable : ContextPayload

-- What the text of a reply is: no JSON, an object whose kind is REVIEW, or another value. The shapes
-- are those of the schema that each is parsed with.
pub data ParsedReply : Type 0 where
  not_json : ParsedReply
  review_object : Raw SupervisorReplyEnvelope → ParsedReply
  other_value : Raw ContextRequestEnvelope → ParsedReply

abbrev pub parse_supervisor_reply : Raw SupervisorReplyEnvelope → Option SupervisorReplyEnvelope
parse_supervisor_reply junk = none
parse_supervisor_reply (shaped r) = if valid_reply r then some r else none

abbrev pub parse_request_envelope : Raw ContextRequestEnvelope → Option ContextRequestEnvelope
parse_request_envelope junk = none
parse_request_envelope (shaped r) = if valid_request r then some r else none
