-- ===== src/Conversations/Ledger.antt =====
-- conversations/message-ledger.ts over the message files of stores/file/store.ts: `messages` lists
-- the entries in the order of the directory listing, one for each message id. The order of file
-- names and the clock are parameters; `ticks` counts the calls of the clock.
pub mod Order
pub mod States
pub mod Refinement
use agent_supervisor_runtime.Base.{
  ℕ, suc, String, Bool, true, false, not, ◌&&◌, ◌||◌, List, [], ◌∷◌, Option, none, some, max, ltb,
  leb, nat_eq, str_eq, keep, if◌then◌else◌,
}
use agent_supervisor_runtime.Contracts.Task.{is_text, optional}

pub data MessageState : Type 0 where
  pending claimed sent observed responded consumed : MessageState

pub data Direction : Type 0 where
  outbound inbound : Direction

pub record NewMessageLedgerEntry : Type 0 where
  pub message_id : String
  pub binding_id : String
  pub task_id : String
  pub run_id : String
  pub kind : String
  pub direction : Direction
  pub sequence : ℕ
  pub correlation_id : Option String
  pub payload_hash : String

pub record MessageLedgerEntry : Type 0 where
  pub message : NewMessageLedgerEntry
  pub open message use *
  pub state : MessageState
  pub created_at : ℕ
  pub updated_at : ℕ

pub record Ledger : Type 0 where
  pub messages : List MessageLedgerEntry
  pub ticks : ℕ

pub data LedgerError : Type 0 where
  conflicting_reuse unknown_message wrong_direction invalid_entry : LedgerError
  invalid_message_transition : MessageState → MessageState → LedgerError

pub data LedgerResult {ℓ} (A : Type ℓ) : Type ℓ where
  ok : A → LedgerResult A
  throw : LedgerError → LedgerResult A

-- The strings that `MessageLedgerEntrySchema` wants not to be empty.
abbrev pub valid_entry : NewMessageLedgerEntry → Bool
valid_entry m =
    is_text m.message_id
    && (is_text m.binding_id
        && (is_text m.task_id
            && (is_text m.run_id
                && (is_text m.kind
                    && (optional is_text m.correlation_id && is_text m.payload_hash)))))

-- The table `allowed`, as a test.
unfoldable pub allowed : MessageState → MessageState → Bool
allowed pending claimed = true
allowed claimed pending = true
allowed claimed sent = true
allowed sent observed = true
allowed observed responded = true
allowed responded consumed = true
allowed _ _ = false

abbrev pub same_direction : Direction → Direction → Bool
same_direction outbound outbound = true
same_direction inbound inbound = true
same_direction _ _ = false

abbrev pub same_text : Option String → Option String → Bool
same_text none none = true
same_text (some a) (some b) = str_eq a b
same_text _ _ = false

unfoldable pub same_immutable_message : NewMessageLedgerEntry → NewMessageLedgerEntry → Bool
same_immutable_message existing input =
    str_eq existing.message_id input.message_id
    && (str_eq existing.binding_id input.binding_id
        && (str_eq existing.task_id input.task_id
            && (str_eq existing.run_id input.run_id
                && (str_eq existing.kind input.kind
                    && (same_direction existing.direction input.direction
                        && (nat_eq existing.sequence input.sequence
                            && (same_text existing.correlation_id input.correlation_id
                                && str_eq existing.payload_hash input.payload_hash)))))))

-- `loadMessageRecord`
unfoldable pub load : String → List MessageLedgerEntry → Option MessageLedgerEntry
load id [] = none
load id (e ∷ es) = if str_eq e.message_id id then some e else load id es

abbrev pub has_direction : Direction → Bool
has_direction inbound = true
has_direction outbound = false

abbrev pub is_consumed : MessageState → Bool
is_consumed consumed = true
is_consumed _ = false

-- The comparison of `findPendingForBinding`, as "not after".
abbrev pub not_after : MessageLedgerEntry → MessageLedgerEntry → Bool
not_after a b =
    ltb a.sequence b.sequence || (nat_eq a.sequence b.sequence && leb a.created_at b.created_at)

unfoldable pub sort_in : MessageLedgerEntry → List MessageLedgerEntry → List MessageLedgerEntry
sort_in e [] = e ∷ []
sort_in e (x ∷ xs) = if not_after e x then e ∷ x ∷ xs else x ∷ sort_in e xs

-- The runtime's sort is stable, so its result is that of inserting the entries from the last on.
unfoldable pub sort : List MessageLedgerEntry → List MessageLedgerEntry
sort [] = []
sort (e ∷ es) = sort_in e (sort es)

abbrev pub is_open_for : String → MessageLedgerEntry → Bool
is_open_for binding_id e = str_eq e.binding_id binding_id && not (is_consumed e.state)

unfoldable pub find_pending_for_binding : String → Ledger → List MessageLedgerEntry
find_pending_for_binding binding_id l = sort (keep (is_open_for binding_id) l.messages)

-- One more than the maximum that the loop holds, which begins at -1.
unfoldable pub above_all : String → ℕ → List MessageLedgerEntry → ℕ
above_all binding_id top [] = top
above_all binding_id top (e ∷ es) =
    above_all binding_id (if str_eq e.binding_id binding_id then max top (suc e.sequence) else top)
      es

unfoldable pub next_sequence_for_binding : String → Ledger → ℕ
unfolding above_all
next_sequence_for_binding binding_id l = above_all binding_id 0 l.messages

-- The calls that write to the ledger, in the order in which they are made.
pub data LedgerCall : Type 0 where
  appends : NewMessageLedgerEntry → LedgerCall
  records_inbound_consumed : NewMessageLedgerEntry → LedgerCall
  moves : String → MessageState → LedgerCall

module _ (before : String → String → Bool) (now : ℕ → ℕ) where
  -- `saveMessageRecord`: the file of this id is written anew, or appears in its place.
  unfoldable pub save : MessageLedgerEntry → List MessageLedgerEntry → List MessageLedgerEntry
  save e [] = e ∷ []
  save e (x ∷ xs) =
      if str_eq x.message_id e.message_id
      then e ∷ xs
      else if before e.message_id x.message_id
      then e ∷ x ∷ xs
      else x ∷ save e xs

  abbrev pub Call : Type 0
  Call = LedgerResult MessageLedgerEntry × Ledger

  abbrev pub entry_at : NewMessageLedgerEntry → MessageState → ℕ → MessageLedgerEntry
  entry_at m s t = record { message = m; state = s; created_at = t; updated_at = t }

  abbrev pub add_or_match :
      Option MessageLedgerEntry → NewMessageLedgerEntry → MessageState → Ledger → Call
  add_or_match (some existing) input s l =
      if same_immutable_message existing.message input
      then (ok existing, l)
      else (throw conflicting_reuse, l)
  add_or_match none input s l =
      if valid_entry input
      then (
        ok (entry_at input s (now l.ticks)),
        record { messages = save (entry_at input s (now l.ticks)) l.messages; ticks = suc l.ticks },
      )
      else (throw invalid_entry, record l { ticks = suc l.ticks })

  unfoldable pub append : NewMessageLedgerEntry → Ledger → Call
  append input l = add_or_match (load input.message_id l.messages) input pending l

  unfoldable pub record_inbound_consumed : NewMessageLedgerEntry → Ledger → Call
  record_inbound_consumed input l =
      if has_direction input.direction
      then add_or_match (load input.message_id l.messages) input consumed l
      else (throw wrong_direction, l)

  abbrev pub move_entry : Option MessageLedgerEntry → MessageState → Ledger → Call
  move_entry none next l = (throw unknown_message, l)
  move_entry (some e) next l =
      if allowed e.state next
      then (
        ok (record e { state = next; updated_at = now l.ticks }),
        record {
          messages = save (record e { state = next; updated_at = now l.ticks }) l.messages;
          ticks = suc l.ticks;
        },
      )
      else (throw (invalid_message_transition e.state next), l)

  unfoldable pub transition : String → MessageState → Ledger → Call
  transition id next l = move_entry (load id l.messages) next l

  unfoldable pub step : LedgerCall → Ledger → Ledger
  unfolding append record_inbound_consumed transition
  step (appends m) l = (append m l).1
  step (records_inbound_consumed m) l = (record_inbound_consumed m l).1
  step (moves id next) l = (transition id next l).1

  unfoldable pub steps : List LedgerCall → Ledger → Ledger
  steps [] l = l
  steps (c ∷ cs) l = steps cs (step c l)

-- `get`
abbrev pub get : String → Ledger → Option MessageLedgerEntry
get id l = load id l.messages
