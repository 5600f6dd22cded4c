-- ===== src/Chatgpt/Adapter/Exchange.antt =====
-- Sending, waiting, consuming an exchange and answering a request for context.
use agent_supervisor_runtime.Base.{
  ℕ, String, Bool, true, false, not, ◌&&◌, List, [], ◌∷◌, Option, none, some, map, str_eq,
  if◌then◌else◌,
}
use agent_supervisor_runtime.Contracts.Review.{
  Review, ReviewFinding, Decision, pass, revise, ask_user, major, is_given, parse_review,
}
use agent_supervisor_runtime.Contracts.Task.{shaped}
use agent_supervisor_runtime.Conversations.Ledger.{
  MessageState, pending, claimed, sent, responded, consumed, outbound, inbound,
  NewMessageLedgerEntry, MessageLedgerEntry, load,
}
use agent_supervisor_runtime.Conversations.Reconcile.{ConversationObservation, request, response}
use agent_supervisor_runtime.Context.Contracts.{
  Ids, ContextRequest, ContextResult, ContextResponse, ContextError,
}
use agent_supervisor_runtime.Context.Contracts as Context
use agent_supervisor_runtime.Chatgpt.Envelopes.{
  AsrEnvelope, AsrMessageKind, kind_text, context_response, SupervisorReplyEnvelope,
  ContextRequestEnvelope, ContextPayload, valid_envelope,
}
use agent_supervisor_runtime.Chatgpt.Envelopes as Envelopes
use agent_supervisor_runtime.Chatgpt.Adapter.Session.{
  Session, AdapterOptions, AdapterError, supervisor_unavailable, invalid_envelope, not_reconciled,
  instruction_required, invalid_review, context_error, AdapterResult, ok, throw, Call, ◌>>=◌, ◌>>◌,
  pure, raise, or_raise, gets, append, record_inbound, transition, reconcile_with, fetch_context,
  new_message_id, sequence_number, connect_transport, current_epoch, send_message, wait_response,
}

abbrev pub is_claimed : MessageState → Bool
is_claimed claimed = true
is_claimed _ = false

abbrev pub same_scope : Ids → Ids → Bool
same_scope a b =
    str_eq a.binding_id b.binding_id && (str_eq a.task_id b.task_id && str_eq a.run_id b.run_id)

-- `assertCorrelation`
unfoldable pub correlated : Ids → String → AsrEnvelope → Bool
correlated ids in_reply_to out = same_scope ids out.ids && str_eq in_reply_to out.message_id

abbrev pub check : Bool → AdapterError → Call (Unit {0})
check true e = pure tt
check false e = raise e

abbrev pub finding_of : String → ReviewFinding
finding_of message = record {
  severity = major;
  category = "supervisor";
  message = message;
  fingerprint = none;
  requires_user_decision = none;
}

abbrev pub decision_text : Decision → String
decision_text pass = "PASS"
decision_text revise = "REVISE"
decision_text ask_user = "ASK_USER"

-- `reply.findings[0] ?? …`
abbrev pub summary_of : List String → String → String
summary_of [] otherwise = otherwise
summary_of (x ∷ xs) otherwise = x

abbrev pub default_summary : Decision → String
default_summary pass = "Supervisor decision: PASS"
default_summary revise = "Supervisor decision: REVISE"
default_summary ask_user = "Supervisor decision: ASK_USER"

abbrev pub instructions_for : Decision → Option String → Option (List String)
instructions_for revise (some i) = some (i ∷ [])
instructions_for _ _ = none

abbrev pub question_for : Decision → Option String → Option String
question_for ask_user instruction = instruction
question_for _ _ = none

abbrev pub needs_instruction : Decision → Bool
needs_instruction pass = false
needs_instruction _ = true

abbrev pub review_of : SupervisorReplyEnvelope → Review
review_of r = record {
  task_id = r.ids.task_id;
  run_id = r.ids.run_id;
  decision = r.decision;
  summary = summary_of r.findings (default_summary r.decision);
  findings = map finding_of r.findings;
  revision_instructions = instructions_for r.decision r.instruction;
  user_question = question_for r.decision r.instruction;
  confidence = none;
}

unfoldable pub to_review : SupervisorReplyEnvelope → Call Review
to_review r =
    if needs_instruction r.decision && not (is_given r.instruction)
    then raise instruction_required
    else or_raise (parse_review (shaped (review_of r))) invalid_review

abbrev pub state_of : Option MessageLedgerEntry → Option MessageState
state_of none = none
state_of (some e) = some e.state

module _ (o : AdapterOptions) where
  -- The `try` of `sendPending` up to its last transition: false where connecting, reading the lease
  -- or sending throws.
  abbrev pub send_under : Option ℕ → String → String → Session → Bool × Session
  send_under none id content s = (false, s)
  send_under (some epoch) id content s =
      send_message o
        (record { message_id = id; binding_id = o.binding.binding_id; content = content }) epoch s

  abbrev pub send_connected : Bool × Session → String → String → Bool × Session
  send_connected (false, s) id content = (false, s)
  send_connected (true, s) id content =
      let (epoch, s') = current_epoch o s in send_under epoch id content s'

  unfoldable pub attempt_send : String → String → Session → Bool × Session
  unfolding connect_transport current_epoch send_message
  attempt_send id content s = send_connected (connect_transport o s) id content

  -- The `catch`: back to PENDING from CLAIMED, and unavailable in any case.
  abbrev pub unclaim : Option MessageState → String → Call (Unit {0})
  unclaim (some claimed) id = do transition o id pending; raise supervisor_unavailable
  unclaim _ id = raise supervisor_unavailable

  unfoldable pub recover_send : String → Call (Unit {0})
  recover_send id = do entry ← gets λ s. load id s.ledger.messages; unclaim (state_of entry) id

  abbrev pub or_recover :
      AdapterResult MessageLedgerEntry × Session → String → AdapterResult (Unit {0}) × Session
  or_recover (ok e, s) id = (ok tt, s)
  or_recover (throw e, s) id = recover_send id s

  abbrev pub settle_send : Bool × Session → String → AdapterResult (Unit {0}) × Session
  settle_send (false, s) id = recover_send id s
  settle_send (true, s) id = or_recover (transition o id sent s) id

  abbrev pub deliver : String → String → Call (Unit {0})
  deliver id content s = settle_send (attempt_send id content s) id

  unfoldable pub send_pending : String → String → Call (Unit {0})
  unfolding transition attempt_send recover_send
  send_pending id content = transition o id claimed >> deliver id content

  abbrev pub or_unavailable : Option String × Session → AdapterResult String × Session
  or_unavailable (none, s) = (throw supervisor_unavailable, s)
  or_unavailable (some content, s) = (ok content, s)

  abbrev pub wait_connected : Bool × Session → String → AdapterResult String × Session
  wait_connected (false, s) id = (throw supervisor_unavailable, s)
  wait_connected (true, s) id =
      or_unavailable
        (wait_response o (record { binding_id = o.binding.binding_id; in_reply_to = id }) s)

  unfoldable pub wait_raw : String → Call String
  unfolding connect_transport wait_response
  wait_raw in_reply_to s = wait_connected (connect_transport o s) in_reply_to

  abbrev pub request_seen : AsrEnvelope → ConversationObservation
  request_seen out = record {
    type_of = request;
    message_id = out.message_id;
    binding_id = out.ids.binding_id;
    task_id = out.ids.task_id;
    run_id = out.ids.run_id;
    in_reply_to = none;
    content = none;
  }

  abbrev pub response_seen : AsrEnvelope → String → String → String → ConversationObservation
  response_seen out inbound_id in_reply_to text = record {
    type_of = response;
    message_id = inbound_id;
    binding_id = out.ids.binding_id;
    task_id = out.ids.task_id;
    run_id = out.ids.run_id;
    in_reply_to = some in_reply_to;
    content = some text;
  }

  abbrev pub consume_in : Option MessageState → String → Call (Unit {0})
  consume_in (some responded) id = do transition o id consumed; pure tt
  consume_in (some consumed) id = pure tt
  consume_in _ id = raise not_reconciled

  unfoldable pub consume_exchange :
      AsrEnvelope → String → String → String → AsrMessageKind → Call (Unit {0})
  unfolding reconcile_with transition sequence_number record_inbound
  consume_exchange out inbound_id in_reply_to text kind = do
    reconcile_with o (request_seen out ∷ response_seen out inbound_id in_reply_to text ∷ [])
    entry ← gets λ s. load out.message_id s.ledger.messages
    consume_in (state_of entry) out.message_id
    sequence ← sequence_number o
    record_inbound o (record {
      message_id = inbound_id;
      binding_id = out.ids.binding_id;
      task_id = out.ids.task_id;
      run_id = out.ids.run_id;
      kind = kind_text kind;
      direction = inbound;
      sequence = sequence;
      correlation_id = some in_reply_to;
      payload_hash = o.sha256 text;
    })
    pure tt

  -- An error of the broker goes back to the supervisor; any other ends the review.
  abbrev pub payload_of :
      ContextResult ContextResponse × Session → AdapterResult ContextPayload × Session
  payload_of (Context.ok r, s) = (ok (Envelopes.response r), s)
  payload_of (Context.throw Context.source_failed, s) =
      (throw (context_error Context.source_failed), s)
  payload_of (Context.throw e, s) = (ok (Envelopes.broker_error e), s)

  abbrev pub query_of : ContextRequestEnvelope → ContextRequest
  query_of r = record { ids = r.ids; ref = r.ref; query = r.query; continuation = r.continuation }

  abbrev pub context_payload : Bool → ContextRequestEnvelope → Call ContextPayload
  context_payload false r s = (ok Envelopes.capability_unavailable, s)
  context_payload true r s = payload_of (fetch_context o (query_of r) s)

  abbrev pub outbound_entry : AsrEnvelope → String → NewMessageLedgerEntry
  outbound_entry out content = record {
    message_id = out.message_id;
    binding_id = out.ids.binding_id;
    task_id = out.ids.task_id;
    run_id = out.ids.run_id;
    kind = kind_text out.kind;
    direction = outbound;
    sequence = out.sequence;
    correlation_id = out.correlation_id;
    payload_hash = o.sha256 content;
  }

  unfoldable pub respond_to_context_request : ContextRequestEnvelope → Call AsrEnvelope
  unfolding new_message_id sequence_number append send_pending fetch_context
  respond_to_context_request r = do
    payload ← context_payload o.has_broker r
    id ← new_message_id o
    sequence ← sequence_number o
    let envelope : AsrEnvelope = record {
      message_id = id;
      ids = r.ids;
      kind = context_response;
      sequence = sequence;
      correlation_id = some r.message_id;
    }
    check (valid_envelope envelope) invalid_envelope
    append o (outbound_entry envelope (o.response_text envelope payload))
    send_pending id (o.response_text envelope payload)
    pure envelope
