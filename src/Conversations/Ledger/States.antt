-- ===== src/Conversations/Ledger/States.antt =====
-- What each operation of the ledger leaves of the entries and their states.
use agent_supervisor_runtime.Base.{
  ℕ, suc, String, Bool, true, List, [], ◌∷◌, Option, none, some, ◌≡◌, ◌≢◌, subst, ◌∙◌, refl, sym,
  ap, arith, eq_iff, eq_refl, str_eq, Bool-cases, inl, inr,
}
use agent_supervisor_runtime.Conversations.Ledger.{
  MessageState, pending, claimed, consumed, Direction, outbound, inbound, ok,
  record_inbound_consumed, has_direction, MessageLedgerEntry, entry_at, LedgerCall, appends,
  records_inbound_consumed, moves, step, steps, NewMessageLedgerEntry, Ledger, load, save, append,
  transition, allowed, same_immutable_message, valid_entry, add_or_match, move_entry, same_text,
  same_direction,
}

abbrev Entries : Type 0
Entries = List MessageLedgerEntry

module _ (before : String → String → Bool) (now : ℕ → ℕ) where
  pub load-save_self :
      (e : MessageLedgerEntry) (es : Entries) → load e.message_id (save before now e es) ≡ some e
  unfolding load save
  load-save_self e [] = ground (arith, eq_refl e.message_id)
  load-save_self e (x ∷ es) = elim (Bool-cases (str_eq x.message_id e.message_id)) [
    | inl p ↦ rw p (ground (arith, eq_refl e.message_id))
    | inr n ↦ elim (Bool-cases (before e.message_id x.message_id)) [
      | inl q ↦ rw (n, q) (ground (arith, eq_refl e.message_id))
      | inr q ↦ rw (n, q, n) (load-save_self e es)
    ]
  ]

  pub load-save_ne :
      (e : MessageLedgerEntry) (id : String) (es : Entries)
      → e.message_id ≢ id
      → load id (save before now e es) ≡ load id es
  unfolding load save
  load-save_ne e id [] h = ground (arith, eq_iff e.message_id id)
  load-save_ne e id (x ∷ es) h = elim (Bool-cases (str_eq x.message_id e.message_id)) [
    | inl p ↦ rw p (
        ground
          (arith, eq_iff e.message_id id, eq_iff x.message_id e.message_id, eq_iff x.message_id id))
    | inr n ↦ elim (Bool-cases (before e.message_id x.message_id)) [
      | inl q ↦ rw (n, q) (ground (arith, eq_iff e.message_id id))
      | inr q ↦ rw (n, q) (ground (arith, load-save_ne e id es h))
    ]
  ]

  pub load-id :
      (id : String) (es : Entries) (e : MessageLedgerEntry)
      → load id es ≡ some e
      → e.message_id ≡ id
  unfolding load
  load-id id [] e h = ground arith
  load-id id (x ∷ es) e h = elim (Bool-cases (str_eq x.message_id id)) [
    | inl p ↦ ground (arith, eq_iff x.message_id id)
    | inr n ↦ load-id id es e (ground arith)
  ]

same_text_refl : (o : Option String) → same_text o o ≡ true
same_text_refl none = refl
same_text_refl (some a) = eq_refl a

direction_refl : (d : Direction) → same_direction d d ≡ true
direction_refl outbound = refl
direction_refl inbound = refl

same_immutable_message_refl : (m : NewMessageLedgerEntry) → same_immutable_message m m ≡ true
unfolding same_immutable_message
same_immutable_message_refl m = ground (
  arith,
  eq_refl m.message_id,
  eq_refl m.binding_id,
  eq_refl m.task_id,
  eq_refl m.run_id,
  eq_refl m.kind,
  eq_refl m.payload_hash,
  same_text_refl m.correlation_id,
  direction_refl m.direction,
)

module _ (before : String → String → Bool) (now : ℕ → ℕ) where
  add_or_match-again :
      (o : Option MessageLedgerEntry) (m : NewMessageLedgerEntry) (s : MessageState) (l : Ledger)
      (e : MessageLedgerEntry)
      → load m.message_id l.messages ≡ o
      → (add_or_match before now o m s l).0 ≡ ok e
      → add_or_match before now
          (load m.message_id (add_or_match before now o m s l).1.messages)
          m
          s
          (add_or_match before now o m s l).1
        ≡ (ok e, (add_or_match before now o m s l).1)
  add_or_match-again none m s l e p h = elim (Bool-cases (valid_entry m)) [
    | inl v ↦
        rw
          (
            v,
            load-save_self before now (entry_at before now m s (now l.ticks)) l.messages,
            same_immutable_message_refl m,
          )
          (ground arith)
    | inr n ↦ ground arith
  ]
  add_or_match-again (some x) m s l e p h = elim (Bool-cases (same_immutable_message x.message m)) [
    | inl v ↦ rw (v, p, v) (ground arith)
    | inr n ↦ ground arith
  ]

  -- A second append of a message that the ledger has taken returns the same entry and changes
  -- nothing, whatever state the entry is in.
  pub append-append :
      (m : NewMessageLedgerEntry) (l : Ledger) (e : MessageLedgerEntry)
      → (append before now m l).0 ≡ ok e
      → append before now m (append before now m l).1 ≡ (ok e, (append before now m l).1)
  unfolding append
  append-append m l e h = add_or_match-again (load m.message_id l.messages) m pending l e refl h

-- The states that the table leads to from another, in any number of steps.
pub data Reaches : MessageState → MessageState → Type 0 where
  here : {s t : MessageState} → s ≡ t → Reaches s t
  there : {s t u : MessageState} → allowed s t ≡ true → Reaches t u → Reaches s u

Reaches-trans : {s t u : MessageState} → Reaches s t → Reaches t u → Reaches s u
Reaches-trans {u = u} (here p) k = subst (λ x. Reaches x u) (sym p) k
Reaches-trans (there a h) k = there a (Reaches-trans h k)

-- What the ledger has done to an entry since: the message and its time stand, the state moved along
-- the table.
pub record Continues (e : MessageLedgerEntry) (found : Option MessageLedgerEntry) : Type 0 where
  pub entry : MessageLedgerEntry
  pub there_now : found ≡ some entry
  pub same_message : entry.message ≡ e.message
  pub same_created_at : entry.created_at ≡ e.created_at
  pub reaches : Reaches e.state entry.state

abbrev KeepsEntries : Ledger → Ledger → Type 0
KeepsEntries l l' =
    (id : String) (e : MessageLedgerEntry)
    → load id l.messages ≡ some e
    → Continues e (load id l'.messages)

stays : (l : Ledger) → KeepsEntries l l
stays l id e p = record {
  entry = e;
  there_now = p;
  same_message = refl;
  same_created_at = refl;
  reaches = here refl;
}

abbrev pub IsDelivered : MessageState → Type 0
IsDelivered pending = ⊥
IsDelivered claimed = ⊥
IsDelivered _ = Unit

allowed-IsDelivered : (s t : MessageState) → allowed s t ≡ true → IsDelivered s → IsDelivered t
unfolding allowed
allowed-IsDelivered s t a d = ground arith

Reaches-IsDelivered : {s t : MessageState} → Reaches s t → IsDelivered s → IsDelivered t
Reaches-IsDelivered (here p) d = subst IsDelivered p d
Reaches-IsDelivered (there {s = a} {t = b} k h) d =
    Reaches-IsDelivered h (allowed-IsDelivered a b k d)

module _ (before : String → String → Bool) (now : ℕ → ℕ) where
  save_new-keeps :
      (e : MessageLedgerEntry) (l : Ledger) (t : ℕ)
      → load e.message_id l.messages ≡ none
      → KeepsEntries l (record { messages = save before now e l.messages; ticks = t })
  save_new-keeps e l t n id x p = record {
    entry = x;
    there_now = load-save_ne before now e id l.messages (λ q. ground (arith, n, p, q)) ∙ p;
    same_message = refl;
    same_created_at = refl;
    reaches = here refl;
  }

  add_or_match-keeps :
      (o : Option MessageLedgerEntry) (m : NewMessageLedgerEntry) (s : MessageState) (l : Ledger)
      → load m.message_id l.messages ≡ o
      → KeepsEntries l (add_or_match before now o m s l).1
  add_or_match-keeps (some e) m s l p = elim (Bool-cases (same_immutable_message e.message m)) [
    | inl v ↦ rw v (stays l)
    | inr v ↦ rw v (stays l)
  ]
  add_or_match-keeps none m s l p = elim (Bool-cases (valid_entry m)) [
    | inl v ↦ rw v (save_new-keeps (entry_at before now m s (now l.ticks)) l (suc l.ticks) p)
    | inr v ↦ rw v (stays l)
  ]

  some_injective : {x y : MessageLedgerEntry} → some x ≡ some y → x ≡ y
  some_injective p = cc

  moved-keeps :
      (e : MessageLedgerEntry) (next : MessageState) (l : Ledger) (t u : ℕ)
      → load e.message_id l.messages ≡ some e
      → allowed e.state next ≡ true
      → KeepsEntries l (record {
        messages = save before now (record e { state = next; updated_at = t }) l.messages;
        ticks = u;
      })
  moved-keeps e next l t u p a id x q = elim (Bool-cases (str_eq e.message_id id)) [
    | inl v ↦
        let i : e.message_id ≡ id = ground (arith, eq_iff e.message_id id) in
        let same : e ≡ x = some_injective (sym p ∙ (rw i q)) in
        record {
          entry = record e { state = next; updated_at = t };
          there_now =
              rw (← i)
                (load-save_self before now (record e { state = next; updated_at = t }) l.messages);
          same_message = ap (λ y. y.message) same;
          same_created_at = ap (λ y. y.created_at) same;
          reaches = there (rw (← same) a) (here refl);
        }
    | inr v ↦ record {
      entry = x;
      there_now =
          load-save_ne before now (record e { state = next; updated_at = t }) id l.messages
            (λ i. ground (arith, eq_iff e.message_id id))
          ∙ q;
      same_message = refl;
      same_created_at = refl;
      reaches = here refl;
    }
  ]

  move_entry-keeps :
      (id : String) (o : Option MessageLedgerEntry) (next : MessageState) (l : Ledger)
      → load id l.messages ≡ o
      → KeepsEntries l (move_entry before now o next l).1
  move_entry-keeps id none next l p = stays l
  move_entry-keeps id (some e) next l p = elim (Bool-cases (allowed e.state next)) [
    | inl v ↦ rw v (
        moved-keeps e next l (now l.ticks) (suc l.ticks)
          (subst (λ i. load i l.messages ≡ some e) (sym (load-id before now id l.messages e p)) p)
          v)
    | inr v ↦ rw v (stays l)
  ]

  step-keeps : (c : LedgerCall) (l : Ledger) → KeepsEntries l (step before now c l)
  unfolding step append record_inbound_consumed transition
  step-keeps (appends m) l = add_or_match-keeps (load m.message_id l.messages) m pending l refl
  step-keeps (moves id next) l = move_entry-keeps id (load id l.messages) next l refl
  step-keeps (records_inbound_consumed m) l = elim (Bool-cases (has_direction m.direction)) [
    | inl v ↦
        rw (v, step, record_inbound_consumed)
          (add_or_match-keeps (load m.message_id l.messages) m consumed l refl)
    | inr v ↦ rw (v, step, record_inbound_consumed) (stays l)
  ]

  Continues-trans :
      (e : MessageLedgerEntry) (l l' : Ledger) (id : String)
      → Continues e (load id l.messages)
      → KeepsEntries l l'
      → Continues e (load id l'.messages)
  Continues-trans e l l' id c k =
      let d : Continues c.entry (load id l'.messages) = k id c.entry c.there_now in
      record {
        entry = d.entry;
        there_now = d.there_now;
        same_message = d.same_message ∙ c.same_message;
        same_created_at = d.same_created_at ∙ c.same_created_at;
        reaches = Reaches-trans c.reaches d.reaches;
      }

  steps-keeps :
      (cs : List LedgerCall) (l : Ledger) (id : String) (e : MessageLedgerEntry)
      → Continues e (load id l.messages)
      → Continues e (load id (steps before now cs l).messages)
  unfolding steps
  steps-keeps [] l id e c = c
  steps-keeps (x ∷ cs) l id e c =
      steps-keeps cs (step before now x l) id e
        (Continues-trans e l (step before now x l) id c (step-keeps x l))

  -- Whatever calls follow, refused ones included, a message once in the ledger stays there, none of
  -- its immutable fields nor its time of creation changes, its state moves along the table only,
  -- and once it has been sent it is never again pending or claimed.
  pub steps-Continues :
      (cs : List LedgerCall) (l : Ledger) (id : String) (e : MessageLedgerEntry)
      → load id l.messages ≡ some e
      → (c : Continues e (load id (steps before now cs l).messages)) × (IsDelivered e.state
          → IsDelivered c.entry.state)
  steps-Continues cs l id e p =
      let c = steps-keeps cs l id e (stays l id e p) in (c, Reaches-IsDelivered c.reaches)
