-- ===== src/Conversations/Ledger/Order.antt =====
-- Sequence numbers.
use agent_supervisor_runtime.Base.{
  ℕ, suc, ◌≤◌, ◌<◌, String, List, [], ◌∷◌, ◌≡◌, max, arith, eq_iff, str_eq, All, if◌then◌else◌,
}
use agent_supervisor_runtime.Conversations.Ledger.{
  MessageLedgerEntry, Ledger, above_all, next_sequence_for_binding,
}

above_all-le :
    (b : String) (top : ℕ) (es : List MessageLedgerEntry)
    → (top ≤ above_all b top es)
      × All (λ (e : MessageLedgerEntry). e.binding_id ≡ b → e.sequence < above_all b top es) es
unfolding above_all
above_all-le b top [] = (omega arith, tt)
above_all-le b top (e ∷ es) =
    let ih = above_all-le b (if str_eq e.binding_id b then max top (suc e.sequence) else top) es in
    (ground (arith, ih.0), ((λ p. ground (arith, ih.0, eq_iff e.binding_id b)), ih.1))

-- The next sequence number of a binding is above that of each of its entries, whatever their order.
pub next_sequence_for_binding-lt :
    (b : String) (l : Ledger)
    → All
        (λ (e : MessageLedgerEntry). e.binding_id ≡ b → e.sequence < next_sequence_for_binding b l)
        l.messages
unfolding next_sequence_for_binding
next_sequence_for_binding-lt b l = (above_all-le b 0 l.messages).1
