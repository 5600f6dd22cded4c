-- ===== src/Conversations/Reconcile.antt =====
-- conversations/reconcile.ts: what the conversation shows of the messages sent moves them along in
-- the ledger and yields the responses that are new.
pub mod Settles
use agent_supervisor_runtime.Base.{
  ℕ, String, Bool, true, false, ◌&&◌, ◌||◌, List, [], ◌∷◌, ◌++◌, Option, none, some, any, find,
  is_some, str_eq, if◌then◌else◌,
}
use agent_supervisor_runtime.Conversations.Ledger.{
  MessageState, sent, observed, responded, MessageLedgerEntry, Ledger, LedgerResult, ok, throw,
  transition, find_pending_for_binding,
}

pub data ObservationType : Type 0 where
  request response : ObservationType

pub record ConversationObservation : Type 0 where
  pub type_of : ObservationType
  pub message_id : String
  pub binding_id : String
  pub task_id : String
  pub run_id : String
  pub in_reply_to : Option String
  pub content : Option String

abbrev pub matches_identity : MessageLedgerEntry → ConversationObservation → Bool
matches_identity e o =
    str_eq o.binding_id e.binding_id && (str_eq o.task_id e.task_id && str_eq o.run_id e.run_id)

abbrev pub is_request : ObservationType → Bool
is_request request = true
is_request response = false

abbrev pub is_response : ObservationType → Bool
is_response request = false
is_response response = true

abbrev pub is_reply : Option String → String → Bool
is_reply none id = false
is_reply (some reply) id = str_eq reply id

abbrev pub matches_request : MessageLedgerEntry → ConversationObservation → Bool
matches_request e o =
    is_request o.type_of && (str_eq o.message_id e.message_id && matches_identity e o)

abbrev pub matches_response : MessageLedgerEntry → ConversationObservation → Bool
matches_response e o =
    is_response o.type_of && (is_reply o.in_reply_to e.message_id && matches_identity e o)

abbrev pub is_sent : MessageState → Bool
is_sent sent = true
is_sent _ = false

abbrev pub is_observed : MessageState → Bool
is_observed observed = true
is_observed _ = false

abbrev pub push :
    LedgerResult MessageLedgerEntry
    → ConversationObservation
    → LedgerResult (List ConversationObservation)
push (throw x) reply = throw x
push (ok e) reply = ok (reply ∷ [])

abbrev pub all_of :
    List ConversationObservation
    → LedgerResult (List ConversationObservation)
    → LedgerResult (List ConversationObservation)
all_of rs (throw x) = throw x
all_of rs (ok more) = ok (rs ++ more)

-- The loop ends where a transition throws, and goes on to the entries after otherwise.
abbrev pub loop_on :
    LedgerResult (List ConversationObservation)
    → Ledger
    → LedgerResult (List ConversationObservation) × Ledger
    → LedgerResult (List ConversationObservation) × Ledger
loop_on (throw x) l later = (throw x, l)
loop_on (ok rs) l later = (all_of rs later.0, later.1)

module _ (before : String → String → Bool) (now : ℕ → ℕ) where
  -- The first `if` of the loop: the current entry after it.
  unfoldable pub observe :
      MessageLedgerEntry → Bool → Ledger → LedgerResult MessageLedgerEntry × Ledger
  observe e seen l =
      if is_sent e.state && seen then transition before now e.message_id observed l else (ok e, l)

  -- The second `if`: the response that it pushes.
  unfoldable pub respond :
      MessageLedgerEntry
      → LedgerResult MessageLedgerEntry
      → Option ConversationObservation
      → Ledger
      → LedgerResult (List ConversationObservation) × Ledger
  respond e (throw x) reply l = (throw x, l)
  respond e (ok current) none l = (ok [], l)
  respond e (ok current) (some reply) l =
      if is_observed current.state
      then (
        push (transition before now e.message_id responded l).0 reply,
        (transition before now e.message_id responded l).1,
      )
      else (ok [], l)

  -- The body of the loop.
  unfoldable pub reconcile_entry :
      List ConversationObservation
      → MessageLedgerEntry
      → Ledger
      → LedgerResult (List ConversationObservation) × Ledger
  unfolding observe respond
  reconcile_entry observations e l =
      let request_observed = any (matches_request e) observations in
      let reply = find (matches_response e) observations in
      let (current, l') = observe e (request_observed || is_some reply) l in
      respond e current reply l'

  unfoldable pub reconcile_entries :
      List ConversationObservation
      → List MessageLedgerEntry
      → Ledger
      → LedgerResult (List ConversationObservation) × Ledger
  reconcile_entries observations [] l = (ok [], l)
  reconcile_entries observations (e ∷ es) l =
      let first = reconcile_entry observations e l in
      loop_on first.0 first.1 (reconcile_entries observations es first.1)

  unfoldable pub reconcile :
      String
      → List ConversationObservation
      → Ledger
      → LedgerResult (List ConversationObservation) × Ledger
  unfolding reconcile_entries
  reconcile binding_id observations l =
      reconcile_entries observations (find_pending_for_binding binding_id l) l
