-- ===== src/Examples/Chatgpt.antt =====
-- The supervisor adapter at concrete inputs.
use agent_supervisor_runtime.Base.{
  Bool, true, false, not, ◌&&◌, [], ◌∷◌, none, some, ◌≡◌, refl, nat_eq,
}
use agent_supervisor_runtime.Contracts.Task.{shaped}
use agent_supervisor_runtime.Contracts.Supervisor.{ReviewRequest}
use agent_supervisor_runtime.Contracts.Result.{WorkerStatus}
use agent_supervisor_runtime.Contracts.Review.{
  pass, valid_review, parse_review, valid_finding, refine_review,
}
use agent_supervisor_runtime.Core.Orchestrator.Identity.{review_identity_error}
use agent_supervisor_runtime.Core.Orchestrator.Scenarios.{demo_task, demo_result}
use agent_supervisor_runtime.Conversations.Ledger.{
  pending, outbound, NewMessageLedgerEntry, MessageLedgerEntry, load, allowed,
  find_pending_for_binding, sort, sort_in, above_all,
}
use agent_supervisor_runtime.Conversations.Ledger as Messages
use agent_supervisor_runtime.Conversations.Reconcile.{reconcile, reconcile_entry}
use agent_supervisor_runtime.Conversations.Transport.{chrome_extension}
use agent_supervisor_runtime.Context.Broker.{Options, empty_broker}
use agent_supervisor_runtime.Context.Contracts as Context
use agent_supervisor_runtime.Chatgpt.Envelopes.{SupervisorReplyEnvelope, review_object}
use agent_supervisor_runtime.Chatgpt.Packet.{compile_review_packet, packet_of}
use agent_supervisor_runtime.Chatgpt.Adapter.Session.{
  Session, AdapterOptions, ok, append, create_manifest_for, new_message_id, sequence_number,
  connect_transport, current_epoch, send_message, wait_response, transition, record_inbound,
  reconcile_with,
}
use agent_supervisor_runtime.Chatgpt.Adapter.Exchange.{
  attempt_send, send_pending, review_of, wait_raw, correlated, consume_exchange, to_review,
}
use agent_supervisor_runtime.Chatgpt.Adapter.Loop.{
  request_review, request_for, review_loop, finish_review,
}
use agent_supervisor_runtime.Chatgpt.Adapter.Correlation.{review_identity_error-request_review}
use agent_supervisor_runtime.Chatgpt.Adapter.Delivery.{Settled, send_pending-Settled}

abbrev input : ReviewRequest
input = record {
  task = demo_task;
  result =
      demo_result
        (record {
          run_id = "T1-a";
          run_directory = "/r";
          prompt = "p";
          revision_number = 0;
          retry_ordinal = 0;
        })
        WorkerStatus.completed;
  previous_review = none;
  revision_number = 0;
}

abbrev reply : SupervisorReplyEnvelope
reply = record {
  message_id = "x";
  in_reply_to = "m";
  ids = record { binding_id = "b"; task_id = "T1"; run_id = "T1-a" };
  decision = pass;
  findings = "fine" ∷ [];
  instruction = none;
}

abbrev broker_options : Options
broker_options = record {
  response_budget_bytes = 4;
  review_cycle_budget_bytes = 6;
  continuation_ttl_ms = 100;
  new_id = λ n. "1";
  trim = λ content. content;
  now = λ n. n;
  canonical_root = λ n root. Context.ok root;
  read_source = λ n s c path query. Context.ok none;
}

-- The first call of `connect` throws, if `broken`.
abbrev adapter : Bool → AdapterOptions
adapter broken = record {
  binding = record {
    binding_id = "b";
    workspace_id = "w";
    conversation_id = "c";
    conversation_url = "https://chatgpt.com/c/c";
    preferred_transport = chrome_extension;
    created_at = 0;
    retired_at = none;
  };
  has_broker = false;
  broker_options = broker_options;
  name_before = λ a b. true;
  clock = λ n. n;
  message_id = λ n. "m";
  next_sequence = none;
  lease_epoch = λ n. some 1;
  connect = λ n. not (broken && nat_eq n 0);
  send = λ n message epoch. true;
  wait_for_response = λ n request. some "reply";
  sha256 = λ text. text;
  json_size = λ packet. 500;
  review_text = λ envelope packet. "request";
  response_text = λ envelope payload. "response";
  parse_json = λ text. review_object (shaped reply);
}

abbrev blank : Session
blank = record {
  ledger = record { messages = []; ticks = 0 };
  broker = empty_broker;
  message_ids = 0;
  sequences = 0;
  epochs = 0;
  connects = 0;
  sent = [];
  waits = 0;
}

reviewed : (request_review (adapter false) 1 input blank).0 ≡ ok (review_of reply)
unfolding request_review request_for create_manifest_for new_message_id sequence_number append
    compile_review_packet packet_of send_pending attempt_send connect_transport current_epoch
    send_message review_loop wait_raw wait_response finish_review correlated consume_exchange
    reconcile_with to_review parse_review transition record_inbound Messages.append
    Messages.transition load Messages.save allowed reconcile reconcile_entry
    find_pending_for_binding sort sort_in Messages.record_inbound_consumed
    Messages.next_sequence_for_binding above_all valid_review valid_finding refine_review
reviewed = refl

review_identity_error-request_review_example :
    (review_identity_error input.task input.result.run_id (review_of reply) ≡ none)
    × (valid_review (review_of reply) ≡ true)
review_identity_error-request_review_example =
    review_identity_error-request_review (adapter false) 1 input blank (review_of reply) reviewed

abbrev waiting_entry : MessageLedgerEntry
waiting_entry = record {
  message = record {
    message_id = "m";
    binding_id = "b";
    task_id = "T1";
    run_id = "T1-a";
    kind = "REVIEW_REQUEST";
    direction = outbound;
    sequence = 0;
    correlation_id = none;
    payload_hash = "request";
  };
  state = pending;
  created_at = 0;
  updated_at = 0;
}

abbrev waiting : Session
waiting = record blank { ledger = record { messages = waiting_entry ∷ []; ticks = 1 } }

send_pending-Settled_example :
    Settled
      (adapter true)
      "m"
      "request"
      waiting_entry
      waiting
      (send_pending (adapter true) "m" "request" waiting)
send_pending-Settled_example =
    send_pending-Settled (adapter true) "m" "request" waiting_entry waiting (unfold load in refl)
      refl
