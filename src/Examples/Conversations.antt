-- ===== src/Examples/Conversations.antt =====
-- Leases, the ledger and the reconciliation at concrete inputs.
use agent_supervisor_runtime.Base.{
  ℕ, ◌+◌, ◌≤◌, ◌<◌, String, Bool, true, List, [], ◌∷◌, none, some, ◌≡◌, refl, arith, insert,
  no_entries, All, eq_iff,
}
use agent_supervisor_runtime.Conversations.Lease.{
  TransportLease, LeaseStore, LeaseCall, acquires, renews, releases, acquire, release,
  assert_authority, save, steps, stale_lease,
}
use agent_supervisor_runtime.Conversations.Lease as Lease
use agent_supervisor_runtime.Conversations.Lease.Fencing.{
  IsFiled, Supersedes, steps-Supersedes, authority_unique, takeover_fences,
  assert_authority-acquire, assert_authority-release,
}
use agent_supervisor_runtime.Conversations.Ledger.{
  MessageState, pending, sent, observed, responded, outbound, NewMessageLedgerEntry,
  MessageLedgerEntry, moves, load, append, same_immutable_message, next_sequence_for_binding,
  find_pending_for_binding, is_open_for, sort, sort_in, transition, allowed,
}
use agent_supervisor_runtime.Conversations.Ledger as Messages
use agent_supervisor_runtime.Conversations.Ledger.{Ledger}
use agent_supervisor_runtime.Conversations.Ledger.States.{
  Continues, IsDelivered, steps-Continues, append-append,
}
use agent_supervisor_runtime.Conversations.Ledger.Order.{next_sequence_for_binding-lt}
use agent_supervisor_runtime.Conversations.Reconcile.{
  ConversationObservation, response, reconcile, reconcile_entry,
}
use agent_supervisor_runtime.Conversations.Reconcile.Settles.{Outcomes, reconcile-Outcomes}

abbrev first_lease : TransportLease
first_lease = record { binding_id = "b"; holder = "extension"; epoch = 1; expires_at = 10 }

abbrev next_lease : TransportLease
next_lease = record { binding_id = "b"; holder = "web"; epoch = 2; expires_at = 25 }

abbrev leased : LeaseStore
leased = insert "b" first_lease no_entries

abbrev taken_over : LeaseStore
taken_over = insert "b" next_lease leased

leased-IsFiled : IsFiled leased
leased-IsFiled = record { at_binding = λ b l e. ground (arith, eq_iff "b" b) }

abbrev calls : List LeaseCall
calls = acquires "b" "web" 15 10 ∷ renews "b" "extension" 1 5 11 12 ∷ []

steps-Supersedes_example : Supersedes first_lease (Lease.steps calls leased "b")
steps-Supersedes_example = steps-Supersedes calls leased "b" first_lease leased-IsFiled refl

abbrev extension : String
extension = "extension"

authority_unique_example : (extension ≡ extension) × (first_lease.epoch ≡ first_lease.epoch)
authority_unique_example =
    authority_unique "b" extension extension 1 1 3 5 leased first_lease first_lease
      (unfold assert_authority in refl) (unfold assert_authority in refl)

takeover_fences_example :
    (10 ≤ 10)
    × (2 ≡ 1 + 1)
    × ((cs : List LeaseCall) (later : ℕ)
        → assert_authority "b" "extension" 1 later
            (Lease.steps cs (acquire "b" "web" 15 10 leased).1)
          ≡ Lease.throw stale_lease)
takeover_fences_example =
    takeover_fences "b" "web" 15 10 leased first_lease next_lease leased-IsFiled refl
      (λ e. ground (arith, eq_iff "extension" "web")) (unfold acquire in refl)

assert_authority-acquire_example :
    assert_authority "b" "web" 2 24 (acquire "b" "web" 15 10 leased).1 ≡ Lease.ok next_lease
assert_authority-acquire_example =
    assert_authority-acquire "b" "web" 15 10 24 leased next_lease (unfold acquire in refl)
      (omega arith)

assert_authority-release_example :
    assert_authority "b" "extension" 1 8 (release "b" "extension" 1 3 4 leased).1
    ≡ Lease.throw stale_lease
assert_authority-release_example =
    assert_authority-release "b" "extension" 1 3 4 leased (record first_lease { expires_at = 4 })
      leased-IsFiled (unfold release in refl) "extension" 1 8 (omega arith)

abbrev before : String → String → Bool
before a b = true

abbrev clock : ℕ → ℕ
clock n = n

abbrev question : NewMessageLedgerEntry
question = record {
  message_id = "m";
  binding_id = "b";
  task_id = "t";
  run_id = "r";
  kind = "review";
  direction = outbound;
  sequence = 0;
  correlation_id = none;
  payload_hash = "h";
}

abbrev asked : MessageLedgerEntry
asked = record { message = question; state = sent; created_at = 0; updated_at = 2 }

abbrev ledger : Ledger
ledger = record { messages = asked ∷ []; ticks = 3 }

abbrev reply : ConversationObservation
reply = record {
  type_of = response;
  message_id = "x";
  binding_id = "b";
  task_id = "t";
  run_id = "r";
  in_reply_to = some "m";
  content = some "PASS";
}

steps-Continues_example :
    (c : Continues asked (
      load "m"
        (Messages.steps before clock
          (moves "m" observed ∷ moves "m" pending ∷ [])
          ledger).messages))
    × (IsDelivered sent → IsDelivered c.entry.state)
steps-Continues_example =
    steps-Continues before clock (moves "m" observed ∷ moves "m" pending ∷ []) ledger "m" asked
      (unfold load in refl)

append-append_example :
    append before clock question (append before clock question ledger).1
    ≡ (Messages.ok asked, (append before clock question ledger).1)
append-append_example =
    append-append before clock question ledger asked
      (unfold append load same_immutable_message in refl)

next_sequence_for_binding-lt_example :
    All
      (λ (e : MessageLedgerEntry).
        e.binding_id ≡ "b" → e.sequence < next_sequence_for_binding "b" ledger)
      ledger.messages
next_sequence_for_binding-lt_example = next_sequence_for_binding-lt "b" ledger

reconcile-Outcomes_example :
    Outcomes before clock
      (reply ∷ [])
      (find_pending_for_binding "b" ledger)
      ledger
      (reconcile before clock "b" (reply ∷ []) ledger)
reconcile-Outcomes_example = reconcile-Outcomes before clock "b" (reply ∷ []) ledger (tt, tt)

-- The response is returned, and its message responded.
reconciles :
    ((reconcile before clock "b" (reply ∷ []) ledger).0 ≡ Messages.ok (reply ∷ []))
    × ((reconcile before clock "b" (reply ∷ []) ledger).1.messages
        ≡ record asked { state = responded; updated_at = 4 } ∷ [])
unfolding reconcile find_pending_for_binding sort sort_in transition load allowed Messages.save
    reconcile_entry
reconciles = (refl, refl)
