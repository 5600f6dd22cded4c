-- ===== src/Conversations/Ledger/Refinement.antt =====
-- The ledger as a map from ids to entries, without the order of the files.
use agent_supervisor_runtime.Base.{
  ℕ, suc, List, [], ◌∷◌, Option, none, some, Map, insert, if◌then◌else◌,
}
use agent_supervisor_runtime.Conversations.Ledger.{
  MessageState, pending, consumed, NewMessageLedgerEntry, MessageLedgerEntry, Ledger, LedgerCall,
  appends, records_inbound_consumed, moves, valid_entry, allowed, has_direction, load,
}

pub record MessageMap : Type 0 where
  pub entry_of : Map MessageLedgerEntry
  pub ticks : ℕ

unfoldable pub view : Ledger → MessageMap
view l = record { entry_of = λ id. load id l.messages; ticks = l.ticks }

-- The entry of its id is written, at the next tick of the clock.
abbrev pub put : MessageLedgerEntry → MessageMap → MessageMap
put e m = record { entry_of = insert e.message_id e m.entry_of; ticks = suc m.ticks }

abbrev pub wait : MessageMap → MessageMap
wait m = record m { ticks = suc m.ticks }

module _ (now : ℕ → ℕ) where
  abbrev pub added :
      Option MessageLedgerEntry → NewMessageLedgerEntry → MessageState → MessageMap → MessageMap
  added (some e) message state m = m
  added none message state m =
      if valid_entry message
      then put
          (record {
            message = message;
            state = state;
            created_at = now m.ticks;
            updated_at = now m.ticks;
          })
          m
      else wait m

  abbrev pub moved : Option MessageLedgerEntry → MessageState → MessageMap → MessageMap
  moved none next m = m
  moved (some e) next m =
      if allowed e.state next
      then put (record e { state = next; updated_at = now m.ticks }) m
      else m

  -- What a call does to the map: a message with a new id is filed, one that moves along the table of
  -- states is filed again, and no other call changes an entry.
  unfoldable pub map_step : LedgerCall → MessageMap → MessageMap
  unfolding allowed
  map_step (appends message) m = added (m.entry_of message.message_id) message pending m
  map_step (records_inbound_consumed message) m =
      if has_direction message.direction
      then added (m.entry_of message.message_id) message consumed m
      else m
  map_step (moves id next) m = moved (m.entry_of id) next m

  unfoldable pub map_steps : List LedgerCall → MessageMap → MessageMap
  unfolding map_step
  map_steps [] m = m
  map_steps (c ∷ cs) m = map_steps cs (map_step c m)
