-- ===== src/Chatgpt/Adapter/Delivery.antt =====
-- What sending a pending message leaves of the message's entry, whatever the transport does.
use agent_supervisor_runtime.Base.{
  ℕ, suc, String, Bool, true, false, ◌&&◌, List, ◌∷◌, Option, none, some, ◌≡◌, ◌≢◌, refl, ap, sym,
  subst, ◌∙◌, length, Bool-cases, Option-cases, inl, inr, if◌then◌else◌,
}
use agent_supervisor_runtime.Conversations.Ledger.{
  MessageState, pending, claimed, sent, MessageLedgerEntry, Ledger, load, allowed,
}
use agent_supervisor_runtime.Conversations.Ledger as Messages
use agent_supervisor_runtime.Conversations.Ledger.States.{load-save_self, load-save_ne, load-id}
use agent_supervisor_runtime.Conversations.Transport.{TransportMessage}
use agent_supervisor_runtime.Chatgpt.Adapter.Session.{
  Session, AdapterOptions, supervisor_unavailable, AdapterResult, ok, throw, transition,
  connect_transport, current_epoch, send_message,
}
use agent_supervisor_runtime.Chatgpt.Adapter.Exchange.{
  attempt_send, recover_send, send_pending, deliver,
}

module _ (o : AdapterOptions) (id : String) where
  -- The entry of this id has moved to another state; the other entries stand.
  record Moved (next : MessageState) (e : MessageLedgerEntry) (s : Session) : Type 0 where
    entry : MessageLedgerEntry
    ledger : Ledger
    runs : transition o id next s ≡ (ok entry, record s { ledger = ledger })
    found : load id ledger.messages ≡ some entry
    state : entry.state ≡ next
    message : entry.message ≡ e.message
    others : (j : String) → id ≢ j → load j ledger.messages ≡ load j s.ledger.messages

  transition-Moved :
      (next : MessageState) (e : MessageLedgerEntry) (s : Session)
      → load id s.ledger.messages ≡ some e
      → allowed e.state next ≡ true
      → Moved next e s
  unfolding transition Messages.transition
  transition-Moved next e s h a =
      let t = o.clock s.ledger.ticks in
      let e' : MessageLedgerEntry = record e { state = next; updated_at = t } in
      let same = load-id o.name_before o.clock id s.ledger.messages e h in
      record {
        entry = e';
        ledger = record {
          messages = Messages.save o.name_before o.clock e' s.ledger.messages;
          ticks = suc s.ledger.ticks;
        };
        runs = rw (h, a) refl;
        found =
            subst (λ i. load i (Messages.save o.name_before o.clock e' s.ledger.messages) ≡ some e')
              same (load-save_self o.name_before o.clock e' s.ledger.messages);
        state = refl;
        message = refl;
        others = λ j n.
            load-save_ne o.name_before o.clock e' j s.ledger.messages (λ p. n (sym same ∙ p));
      }

  abbrev message_of : String → TransportMessage
  message_of content = record {
    message_id = id;
    binding_id = o.binding.binding_id;
    content = content;
  }

  -- Whether the transport is reached, an epoch is given and the transport takes the message.
  abbrev accepts : String → Session → Option ℕ → Bool
  accepts content s none = false
  accepts content s (some epoch) = o.send (length s.sent) (message_of content) epoch

  abbrev goes_through : String → Session → Bool
  goes_through content s = o.connect s.connects && accepts content s (o.lease_epoch s.epochs)

  abbrev with_epoch : String → Session → Option ℕ → List TransportMessage
  with_epoch content s none = s.sent
  with_epoch content s (some epoch) = message_of content ∷ s.sent

  abbrev handed_over : String → Session → List TransportMessage
  handed_over content s =
      if o.connect s.connects then with_epoch content s (o.lease_epoch s.epochs) else s.sent

  pub record Settled (content : String) (e : MessageLedgerEntry) (s : Session)
      (x : AdapterResult (Unit {0}) × Session) : Type 0 where
    pub result : x.0 ≡ (if goes_through content s then ok tt else throw supervisor_unavailable)
    pub entry : MessageLedgerEntry
    pub found : load id x.1.ledger.messages ≡ some entry
    pub state : entry.state ≡ (if goes_through content s then sent else pending)
    pub message : entry.message ≡ e.message
    pub others : (j : String) → id ≢ j → load j x.1.ledger.messages ≡ load j s.ledger.messages
    pub handed : x.1.sent ≡ handed_over content s

  recover_send-Moved :
      (e : MessageLedgerEntry) (s : Session)
      → load id s.ledger.messages ≡ some e
      → e.state ≡ claimed
      → (m : Moved pending e s)
      → recover_send o id s ≡ (throw supervisor_unavailable, record s { ledger = m.ledger })
  unfolding recover_send
  recover_send-Moved e s h c m = rw (h, c, m.runs) refl

  unsent :
      (content : String) (e : MessageLedgerEntry) (s s' : Session)
      → load id s.ledger.messages ≡ some e
      → e.state ≡ claimed
      → s'.ledger ≡ s.ledger
      → s'.sent ≡ handed_over content s
      → goes_through content s ≡ false
      → Settled content e s (recover_send o id s')
  unfolding allowed
  unsent content e s s' h c l k g =
      let there : load id s'.ledger.messages ≡ some e = rw l h in
      let m = transition-Moved pending e s' there (rw c refl) in
      rw (recover_send-Moved e s' there c m) (record {
        result = rw g refl;
        entry = m.entry;
        found = m.found;
        state = rw g m.state;
        message = m.message;
        others = λ j n. m.others j n ∙ ap (λ x. load j x.messages) l;
        handed = k;
      })

  deliver-Settled :
      (content : String) (e : MessageLedgerEntry) (s : Session)
      → load id s.ledger.messages ≡ some e
      → e.state ≡ claimed
      → Settled content e s (deliver o id content s)
  unfolding attempt_send connect_transport current_epoch send_message allowed
  deliver-Settled content e s h c = elim (Bool-cases (o.connect s.connects)) [
    | inr n ↦ rw n (
        unsent content e s (record s { connects = suc s.connects }) h c refl (rw n refl)
          (rw n refl))
    | inl y ↦ elim (Option-cases (o.lease_epoch s.epochs)) [
      | inl n ↦
          rw (y, n)
            (unsent content e s (record s { connects = suc s.connects; epochs = suc s.epochs }) h c
              refl (rw (y, n) refl) (rw (y, n) refl))
      | inr (epoch, k) ↦ elim (Bool-cases (o.send (length s.sent) (message_of content) epoch)) [
        | inr n ↦
            rw (y, k, n)
              (unsent content e s
                (record s {
                  connects = suc s.connects;
                  epochs = suc s.epochs;
                  sent = message_of content ∷ s.sent;
                })
                h c refl (rw (y, k) refl) (rw (y, k, n) refl))
        | inl z ↦
            let m =
              transition-Moved sent e
                (record s {
                  connects = suc s.connects;
                  epochs = suc s.epochs;
                  sent = message_of content ∷ s.sent;
                })
                h (rw c refl) in
            rw (y, k, z, m.runs)
              (record {
                result = rw (y, k, z) refl;
                entry = m.entry;
                found = m.found;
                state = rw (y, k, z) m.state;
                message = m.message;
                others = m.others;
                handed = rw (y, k) refl;
              })
      ]
    ]
  ]

  -- Sending a message whose entry is pending ends in one of two ways. Where the transport is reached, the
  -- lease gives an epoch and the transport takes the message, the send returns and the entry is SENT; else
  -- it throws SUPERVISOR_UNAVAILABLE and the entry is PENDING again. The message is handed over once if
  -- the transport is reached under an epoch, and never otherwise; no other entry changes.
  pub send_pending-Settled :
      (content : String) (e : MessageLedgerEntry) (s : Session)
      → load id s.ledger.messages ≡ some e
      → e.state ≡ pending
      → Settled content e s (send_pending o id content s)
  unfolding send_pending allowed
  send_pending-Settled content e s h p =
      let m = transition-Moved claimed e s h (rw p refl) in
      let d = deliver-Settled content m.entry (record s { ledger = m.ledger }) m.found m.state in
      rw m.runs (record {
        result = d.result;
        entry = d.entry;
        found = d.found;
        state = d.state;
        message = d.message ∙ m.message;
        others = λ j n. d.others j n ∙ m.others j n;
        handed = d.handed;
      })
