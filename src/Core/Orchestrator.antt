-- ===== src/Core/Orchestrator.antt =====
-- core/orchestrator.ts. `World` is what an orchestrator reads and writes; `Moves`, `Identity`,
-- `Dispatch`, `Execution` and `Reviews` are its private methods, `Loop` its entry points; the other
-- modules hold the proofs.
pub mod World
pub mod Moves
pub mod Persistence
pub mod Identity
pub mod Dispatch
pub mod Execution
pub mod Reviews
pub mod Loop
pub mod Calls
pub mod Effects
pub mod Progress
pub mod Termination
pub mod Entry
pub mod Scenarios
