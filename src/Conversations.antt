-- ===== src/Conversations.antt =====
-- conversations: leases on a binding, the ledger of its messages, their reconciliation, and the
-- manager of the transports.
pub mod Lease
pub mod Ledger
pub mod Reconcile
pub mod Transport
pub mod Registrations
pub mod Manager
