-- ===== src/Lib.antt =====
-- A verification library of agent-supervisor-runtime: a runtime that dispatches tasks to a coding
-- worker, has a supervisor review each result, and talks to that supervisor over a conversation. Paths
-- are from the repository's root.
--
-- Parts and how they interact:
-- - Contracts (src/contracts): tasks, records, results, reviews and what the adapters exchange, with
--   the schemas that refine them as Boolean tests. A parsed input is `Raw`: a value of the right shape,
--   or junk. Contracts.Identifiers compares the task schema's identifiers with the guard of
--   src/stores/file/store.ts.
-- - Core.StateMachine (src/core/state-machine.ts): the transition table; Paths is about its runs.
-- - Core.Policy (src/core/policy-engine.ts): retries, run time, automatic revisions.
-- - Core.Orchestrator (src/core/orchestrator.ts): World is the store and what the adapters were asked,
--   in a state monad whose writes outlive a throw. The store's operations are those of
--   src/stores/file/store.ts: each throws at an unsafe identifier and at a value that its schema does
--   not admit, and a notification may be rejected. Moves, Identity, Dispatch, Execution, Reviews and
--   Loop follow the methods. The worker, the supervisor, the clock and the source of run ids are
--   functions of the number of calls made so far. Calls, Effects and Progress say what each step leaves of
--   the world, Termination and Entry what a whole call does.
-- - Workers.Prompt (src/workers/prompt-compiler.ts): the prompts, as lines and as text.
-- - Conversations.Lease, .Ledger and .Reconcile (src/conversations): transport leases with epochs, the
--   message ledger and the reconciliation of what a conversation shows with it. Each call reads the
--   clock at times that are arguments or at a count of its ticks. Message ids are taken to pass the
--   guard of the file store. Transport is a binding and what a transport takes, Registrations
--   and Manager are the transport manager (src/conversations/transport-manager.ts) over the leases:
--   Handover and Preemption say who may send and when a lease changes hands.
-- - Context (src/context/broker.ts, src/context/contracts.ts): what a supervisor may read of a
--   workspace. Text is splitUtf8 over code points, Summary the line of a manifest
--   item; the canonical root and the sources are parameters of the broker. Policy
--   (src/context/workspace-policy.ts) resolves paths; node:path is a parameter.
-- - Runtime.Session (src/runtime/supervisor-session.ts): the states of a supervisor session.
-- - Runtime.Frames (src/runtime/ipc.ts, src/native-host/framing.ts): the codec of length-prefixed JSON
--   over bytes; the JSON text of a value and its way back are parameters.
-- - Chatgpt (src/chatgpt): Envelopes and Packet are its messages, Adapter.Session the state of the
--   supervisor adapter with its calls of the ledger, the broker and the transport, Adapter.Exchange and
--   Adapter.Loop its methods. The transport, the lease, the ids and the texts are parameters. Adapter
--   calls Conversations and Context as the code does; Correlation and Delivery are about it.
-- - Runtime.Contracts (src/runtime/contracts.ts) and NativeHost (src/native-host/bridge.ts): the frames
--   between the extension and the runtime, which of them Bridge passes on, and how Connect reaches the
--   runtime. Bridge decodes with Runtime.Frames; URLs and dates are parameters.
-- - Companion (src/companion/transport.ts, src/page-driver/contracts.ts and compatibility.ts): Page is
--   what a page driver reports, State what the transport holds, Ready, Connecting and Exchange its
--   methods over the transport manager. Every call of the browser takes a time of its own; the browser,
--   the page driver and the regular expressions are parameters.
-- - Examples and Core.Orchestrator.Scenarios evaluate the models on concrete inputs.
-- - Base: the names, operators and lemmas that the parts share.
--
-- Bounds and fuel: numbers are unbounded, times are milliseconds. The orchestrator's loop runs on fuel;
-- `enough_fuel` in Core.Orchestrator.Entry is a bound from the limits of the policy on revisions and
-- retries, since each round lowers a measure of the record. `resumeRunning` calls the loop in turn; as
-- its result is terminal, that is one more round of the same loop. The decoder's loop has more fuel than
-- the buffer has bytes. The adapter's loop has no bound in the code: a supervisor may ask for context
-- for ever, and `out_of_fuel` stands for that. The companion's loops end by the clock: fuel above the
-- time limit is enough where each turn waits.
--
-- Not modelled: files, sockets, processes, browser automation, the command line and setup, which are
-- input and output, the drivers of the page among them. A file system error does not occur in the stores.
pub mod Base
pub mod Chatgpt
pub mod Companion
pub mod Context
pub mod Contracts
pub mod Conversations
pub mod Core
pub mod Examples
pub mod NativeHost
pub mod Runtime
pub mod Workers
