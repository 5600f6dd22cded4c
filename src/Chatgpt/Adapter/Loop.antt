-- ===== src/Chatgpt/Adapter/Loop.antt =====
-- `requestReview`, and the loop that answers requests for context until a review comes.
use agent_supervisor_runtime.Base.{
  ℕ, zero, suc, String, Bool, true, false, ◌&&◌, List, [], Option, none, some, find, str_eq,
  if◌then◌else◌,
}
use agent_supervisor_runtime.Contracts.Supervisor.{ReviewRequest}
use agent_supervisor_runtime.Contracts.Review.{Review}
use agent_supervisor_runtime.Conversations.Ledger.{
  MessageState, pending, claimed, Direction, outbound, inbound, MessageLedgerEntry, load,
  find_pending_for_binding,
}
use agent_supervisor_runtime.Context.Contracts.{Ids}
use agent_supervisor_runtime.Context.Broker.{ContextManifestItem}
use agent_supervisor_runtime.Chatgpt.Envelopes.{
  AsrEnvelope, kind_text, review_request, review, context_request, valid_envelope,
  SupervisorReplyEnvelope, ContextRequestEnvelope, ParsedReply, not_json, review_object,
  other_value, parse_supervisor_reply, parse_request_envelope,
}
use agent_supervisor_runtime.Chatgpt.Packet.{compile_review_packet}
use agent_supervisor_runtime.Chatgpt.Adapter.Session.{
  AdapterOptions, supervisor_unavailable, packet_too_large, payload_mismatch, invalid_envelope,
  invalid_json, invalid_reply, correlation_mismatch, missing_entry, out_of_fuel, Call, ◌>>=◌, ◌>>◌,
  pure, raise, or_raise, gets, append, create_manifest_for, new_message_id, sequence_number,
}
use agent_supervisor_runtime.Chatgpt.Adapter.Exchange.{
  check, outbound_entry, correlated, to_review, send_pending, wait_raw, consume_exchange,
  respond_to_context_request,
}

abbrev pub is_outbound : Direction → Bool
is_outbound outbound = true
is_outbound inbound = false

abbrev pub asks_for : ReviewRequest → MessageLedgerEntry → Bool
asks_for input e =
    str_eq e.task_id input.task.task_id
    && (str_eq e.run_id input.result.run_id
        && (str_eq e.kind (kind_text review_request) && is_outbound e.direction))

module _ (o : AdapterOptions) where
  -- The two ends of a turn of `reviewLoop`, the second with the rounds that follow.
  unfoldable pub finish_review : AsrEnvelope → String → SupervisorReplyEnvelope → Call Review
  unfolding correlated consume_exchange to_review
  finish_review out text reply = do
    check (correlated reply.ids reply.in_reply_to out) correlation_mismatch
    consume_exchange o out reply.message_id reply.in_reply_to text review
    to_review reply

  abbrev pub answer_request :
      AsrEnvelope → String → (AsrEnvelope → Call Review) → ContextRequestEnvelope → Call Review
  answer_request out text again request = do
    check (correlated request.ids request.in_reply_to out) correlation_mismatch
    consume_exchange o out request.message_id request.in_reply_to text context_request
    next ← respond_to_context_request o request
    again next

  abbrev pub on_reply :
      AsrEnvelope → String → (AsrEnvelope → Call Review) → ParsedReply → Call Review
  on_reply out text again not_json = raise invalid_json
  on_reply out text again (review_object raw) = do
    reply ← or_raise (parse_supervisor_reply raw) invalid_reply
    finish_review out text reply
  on_reply out text again (other_value raw) = do
    request ← or_raise (parse_request_envelope raw) invalid_reply
    answer_request out text again request

  unfoldable pub review_loop : ℕ → AsrEnvelope → Call Review
  unfolding wait_raw finish_review correlated consume_exchange respond_to_context_request
  review_loop zero out = raise out_of_fuel
  review_loop (suc fuel) out = wait_raw o out.message_id >>= λ text.
      on_reply out text (λ next. review_loop fuel next) (o.parse_json text)

  abbrev pub ids_of : ReviewRequest → Ids
  ids_of input = record {
    binding_id = o.binding.binding_id;
    task_id = input.task.task_id;
    run_id = input.result.run_id;
  }

  abbrev pub manifest_for : Bool → ReviewRequest → Call (List ContextManifestItem)
  manifest_for false input = pure []
  manifest_for true input =
      create_manifest_for o
        (record { ids = ids_of input; workspace_root = input.task.execution.working_directory })

  abbrev pub existing_or_new_id : Option MessageLedgerEntry → Call String
  existing_or_new_id none = new_message_id o
  existing_or_new_id (some e) = pure e.message_id

  abbrev pub existing_or_next : Option MessageLedgerEntry → Call ℕ
  existing_or_next none = sequence_number o
  existing_or_next (some e) = pure e.sequence

  -- A new request is appended, an existing one must have the same content. Returns the entry at hand.
  abbrev pub persist : Option MessageLedgerEntry → AsrEnvelope → String → Call MessageLedgerEntry
  persist none out content = do
    append o (outbound_entry o out content)
    entry ← gets λ s. load out.message_id s.ledger.messages
    or_raise entry missing_entry
  persist (some e) out content =
      if str_eq e.payload_hash (o.sha256 content) then pure e else raise payload_mismatch

  abbrev pub send_in : MessageState → String → String → Call (Unit {0})
  send_in claimed id content = raise supervisor_unavailable
  send_in pending id content = send_pending o id content
  send_in _ id content = pure tt

  unfoldable pub request_for : ℕ → ReviewRequest → Option MessageLedgerEntry → Call Review
  unfolding create_manifest_for new_message_id sequence_number compile_review_packet append
      send_pending review_loop
  request_for fuel input existing = do
    available ← manifest_for o.has_broker input
    id ← existing_or_new_id existing
    sequence ← existing_or_next existing
    let out : AsrEnvelope = record {
      message_id = id;
      ids = ids_of input;
      kind = review_request;
      sequence = sequence;
      correlation_id = none;
    }
    check (valid_envelope out) invalid_envelope
    packet ←
        or_raise (compile_review_packet o.json_size input.task input.result available 6144)
          packet_too_large
    entry ← persist existing out (o.review_text out packet)
    send_in entry.state id (o.review_text out packet)
    review_loop fuel out

  unfoldable pub request_review : ℕ → ReviewRequest → Call Review
  unfolding request_for
  request_review fuel input s =
      request_for fuel input
        (find (asks_for input) (find_pending_for_binding o.binding.binding_id s.ledger)) s
