-- ===== src/Chatgpt/Adapter.antt =====
-- chatgpt/supervisor-adapter.ts: Session is the state and what the adapter is given, Exchange follows
-- the methods from the ledger to the transport, Loop is `requestReview` and its loop.
pub mod Session
pub mod Exchange
pub mod Loop
pub mod Correlation
pub mod Delivery
