-- ===== src/Core/Orchestrator/Persistence.antt =====
-- What the store keeps of a worker's result.
use agent_supervisor_runtime.Base.{String, true, false, some, ◌≡◌, ◌⊎◌, insert}
use agent_supervisor_runtime.Contracts.Identifiers.{is_safe_identifier}
use agent_supervisor_runtime.Contracts.Result.{WorkerResult, valid_result}
use agent_supervisor_runtime.Core.Orchestrator.World.{
  World, Failure, ok, throw, ◌>>◌, save_worker_result, load_worker_result,
}

-- The result is stored and read back, and nothing else changes.
pub record Kept (id : String) (r : WorkerResult) (w : World) : Type 0 where
  pub safe : is_safe_identifier id ≡ true
  pub valid : valid_result r ≡ true
  pub read_back :
      (save_worker_result id r >> load_worker_result id) w
      ≡ (ok (some r), record w { store = record w.store { results = insert id r w.results } })

-- The save throws and nothing changes.
pub record Rejected (id : String) (r : WorkerResult) (w : World) : Type 0 where
  pub reason : (is_safe_identifier id ≡ false) ⊎ (valid_result r ≡ false)
  pub error : Failure
  pub threw : save_worker_result id r w ≡ (throw error, w)
