-- ===== src/Chatgpt/Adapter/Session.antt =====
-- The state that the adapter works on: the message ledger, the context broker and the calls of the
-- transport made so far. The transport, the ids, the lease and the texts are parameters.
use agent_supervisor_runtime.Base.{ℕ, suc, String, Bool, List, ◌∷◌, Option, none, some, length}
use agent_supervisor_runtime.Conversations.Ledger.{
  NewMessageLedgerEntry, MessageLedgerEntry, MessageState, Ledger, LedgerError, LedgerResult,
}
use agent_supervisor_runtime.Conversations.Ledger as Messages
use agent_supervisor_runtime.Conversations.Reconcile.{ConversationObservation, reconcile}
use agent_supervisor_runtime.Conversations.Transport.{
  ConversationBinding, TransportMessage, ResponseRequest,
}
use agent_supervisor_runtime.Context.Contracts.{
  ContextScope, ContextRequest, ContextResponse, ContextError, ContextResult,
}
use agent_supervisor_runtime.Context.Contracts as Context
use agent_supervisor_runtime.Context.Broker.{
  Options, ContextBroker, ContextManifestItem, create_manifest, fetch,
}
use agent_supervisor_runtime.Chatgpt.Envelopes.{AsrEnvelope, ContextPayload, ParsedReply}
use agent_supervisor_runtime.Chatgpt.Packet.{CompactReviewPacket}

pub record Session : Type 0 where
  pub ledger : Ledger
  pub broker : ContextBroker
  pub message_ids : ℕ  -- calls of messageId()
  pub sequences : ℕ  -- calls of nextSequence()
  pub epochs : ℕ  -- calls of leaseEpoch()
  pub connects : ℕ  -- calls of transport.connect
  pub sent : List TransportMessage  -- calls of transport.send, the last one first
  pub waits : ℕ  -- calls of transport.waitForResponse

pub record AdapterOptions : Type 0 where
  pub binding : ConversationBinding
  pub has_broker : Bool
  pub broker_options : Options
  pub name_before : String → String → Bool
  pub clock : ℕ → ℕ
  pub message_id : ℕ → String
  pub next_sequence : Option (ℕ → ℕ)
  pub lease_epoch : ℕ → Option ℕ  -- `none` where it throws
  pub connect : ℕ → Bool  -- false where it throws, as below
  pub send : ℕ → TransportMessage → ℕ → Bool
  pub wait_for_response : ℕ → ResponseRequest → Option String
  pub sha256 : String → String
  pub json_size : CompactReviewPacket → ℕ
  pub review_text : AsrEnvelope → CompactReviewPacket → String
  pub response_text : AsrEnvelope → ContextPayload → String
  pub parse_json : String → ParsedReply

-- What a call throws. `out_of_fuel` is the model's own.
pub data AdapterError : Type 0 where
  supervisor_unavailable packet_too_large payload_mismatch invalid_envelope : AdapterError
  invalid_json invalid_reply correlation_mismatch not_reconciled : AdapterError
  instruction_required invalid_review missing_entry out_of_fuel : AdapterError
  ledger_error : LedgerError → AdapterError
  context_error : ContextError → AdapterError

pub data AdapterResult {ℓ} (A : Type ℓ) : Type ℓ where
  ok : A → AdapterResult A
  throw : AdapterError → AdapterResult A

-- What was written before a throw stays written.
abbrev pub Call : Type 0 → Type 0
Call A = Session → AdapterResult A × Session

abbrev pub continue :
    {A B : Type 0} → AdapterResult A × Session → (A → Call B) → AdapterResult B × Session
continue (ok a, s) f = f a s
continue (throw e, s) f = (throw e, s)

infixl 5 ◌>>=◌ ◌>>◌
abbrev pub ◌>>=◌ : {A B : Type 0} → Call A → (A → Call B) → Call B
◌>>=◌ m f s = continue (m s) f

abbrev pub ◌>>◌ : {A B : Type 0} → Call A → Call B → Call B
m >> k = m >>= λ _. k

abbrev pub pure : {A : Type 0} → A → Call A
pure a s = (ok a, s)

abbrev pub raise : {A : Type 0} → AdapterError → Call A
raise e s = (throw e, s)

abbrev pub or_raise : {A : Type 0} → Option A → AdapterError → Call A
or_raise none e = raise e
or_raise (some a) e = pure a

abbrev pub gets : {A : Type 0} → (Session → A) → Call A
gets f s = (ok (f s), s)

abbrev pub from_ledger : {A : Type 0} → LedgerResult A × Ledger → Call A
from_ledger (Messages.ok a, l) s = (ok a, record s { ledger = l })
from_ledger (Messages.throw e, l) s = (throw (ledger_error e), record s { ledger = l })

abbrev pub from_broker : {A : Type 0} → ContextResult A × ContextBroker → Call A
from_broker (Context.ok a, b) s = (ok a, record s { broker = b })
from_broker (Context.throw e, b) s = (throw (context_error e), record s { broker = b })

module _ (o : AdapterOptions) where
  unfoldable pub append : NewMessageLedgerEntry → Call MessageLedgerEntry
  append m s = from_ledger (Messages.append o.name_before o.clock m s.ledger) s

  unfoldable pub record_inbound : NewMessageLedgerEntry → Call MessageLedgerEntry
  record_inbound m s =
      from_ledger (Messages.record_inbound_consumed o.name_before o.clock m s.ledger) s

  unfoldable pub transition : String → MessageState → Call MessageLedgerEntry
  transition id next s = from_ledger (Messages.transition o.name_before o.clock id next s.ledger) s

  unfoldable pub reconcile_with : List ConversationObservation → Call (List ConversationObservation)
  reconcile_with observations s =
      from_ledger (reconcile o.name_before o.clock o.binding.binding_id observations s.ledger) s

  unfoldable pub create_manifest_for : ContextScope → Call (List ContextManifestItem)
  create_manifest_for scope s = from_broker (create_manifest o.broker_options scope s.broker) s

  unfoldable pub fetch_context : ContextRequest → Session → ContextResult ContextResponse × Session
  fetch_context request s =
      let (result, broker) = fetch o.broker_options request s.broker in
      (result, record s { broker = broker })

  unfoldable pub new_message_id : Call String
  new_message_id s = (ok (o.message_id s.message_ids), record s { message_ids = suc s.message_ids })

  abbrev pub provided : Option (ℕ → ℕ) → Call ℕ
  provided none s = (ok (Messages.next_sequence_for_binding o.binding.binding_id s.ledger), s)
  provided (some next) s = (ok (next s.sequences), record s { sequences = suc s.sequences })

  -- `nextSequence`
  unfoldable pub sequence_number : Call ℕ
  sequence_number s = provided o.next_sequence s

  -- A step of the transport: whether it returned.
  unfoldable pub connect_transport : Session → Bool × Session
  connect_transport s = (o.connect s.connects, record s { connects = suc s.connects })

  unfoldable pub current_epoch : Session → Option ℕ × Session
  current_epoch s = (o.lease_epoch s.epochs, record s { epochs = suc s.epochs })

  unfoldable pub send_message : TransportMessage → ℕ → Session → Bool × Session
  send_message m epoch s = (o.send (length s.sent) m epoch, record s { sent = m ∷ s.sent })

  unfoldable pub wait_response : ResponseRequest → Session → Option String × Session
  wait_response r s = (o.wait_for_response s.waits r, record s { waits = suc s.waits })
