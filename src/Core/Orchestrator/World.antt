-- ===== src/Core/Orchestrator/World.antt =====
-- The state that the orchestrator works on: the store (contracts/state-store.ts, less the message
-- records; the operations are those of stores/file/store.ts, with its guards and schemas, less the
-- failures of the file system), and what it has asked of its adapters. The adapters, the clock and
-- the source of run ids are parameters: functions of the number of calls made so far.
use agent_supervisor_runtime.Base.{
  ℕ, suc, String, Bool, true, false, List, [], ◌∷◌, ◌++◌, Option, none, some, Map, insert, length,
  str_eq, if◌then◌else◌,
}
use agent_supervisor_runtime.Contracts.Identifiers.{is_safe_identifier}
use agent_supervisor_runtime.Contracts.Task.{Task, valid_task}
use agent_supervisor_runtime.Contracts.State.{RunState, TaskRecord, OrchestratorEvent, valid_record}
use agent_supervisor_runtime.Contracts.Result.{WorkerResult, valid_result}
use agent_supervisor_runtime.Contracts.Review.{Review, valid_review}
use agent_supervisor_runtime.Contracts.Supervisor.{
  ReviewRequest, SupervisorNotification, WorkerExecutionContext, Attempt, Reply,
}
use agent_supervisor_runtime.Core.StateMachine.{StateEvent}
use agent_supervisor_runtime.Core.Policy.{PolicyConfig}

pub record StateStore : Type 0 where
  pub project : Option String  -- of project.json
  pub tasks : Map Task
  pub records : Map TaskRecord
  pub prompts : Map String
  pub results : Map WorkerResult
  pub reviews : Map Review
  pub events : String → List OrchestratorEvent

pub record World : Type 0 where
  pub store : StateStore
  pub open store use *
  pub ticks : ℕ  -- calls of now()
  pub ids : ℕ  -- calls of runId()
  pub handed : List WorkerExecutionContext  -- calls of worker.execute, the last one first
  pub asked : List ReviewRequest  -- calls of supervisor.requestReview, the last one first
  pub notified : List SupervisorNotification

pub record OrchestratorDependencies : Type 0 where
  pub policy : PolicyConfig
  pub now : ℕ → ℕ
  pub run_id : ℕ → String
  pub run_directory : String → String
  pub worker : ℕ → Task → WorkerExecutionContext → Attempt
  pub supervisor : ℕ → ReviewRequest → Reply
  pub notify : Option (ℕ → SupervisorNotification → Bool)  -- whether the promise is fulfilled

-- What a call may throw: a guard of the store names the identifier, a schema what it refused, a
-- notification its number and itself. `out_of_fuel` is the model's own.
pub data Failure : Type 0 where
  invalid_task not_persisted out_of_fuel : Failure
  invalid_transition : RunState → StateEvent → Failure
  unhandled_state : RunState → Failure
  supervisor_unavailable : String → Failure
  unsafe_identifier : String → Failure
  task_refused : Task → Failure
  record_refused : TaskRecord → Failure
  result_refused : WorkerResult → Failure
  review_refused : Review → Failure
  notify_rejected : ℕ → SupervisorNotification → Failure

pub data Outcome {ℓ} (A : Type ℓ) : Type ℓ where
  ok : A → Outcome A
  throw : Failure → Outcome A

-- What was written before a throw stays written.
abbrev pub Exec : Type 0 → Type 0
Exec A = World → Outcome A × World

abbrev pub continue : {A B : Type 0} → Outcome A × World → (A → Exec B) → Outcome B × World
continue (ok a, w) f = f a w
continue (throw e, w) f = (throw e, w)

infixl 5 ◌>>=◌ ◌>>◌
abbrev pub ◌>>=◌ : {A B : Type 0} → Exec A → (A → Exec B) → Exec B
◌>>=◌ m f w = continue (m w) f

abbrev pub ◌>>◌ : {B : Type 0} → Exec (Unit {0}) → Exec B → Exec B
m >> k = m >>= λ _. k

abbrev pub pure : {A : Type 0} → A → Exec A
pure a w = (ok a, w)

abbrev pub raise : {A : Type 0} → Failure → Exec A
raise e w = (throw e, w)

abbrev pub or_raise : {A : Type 0} → Option A → Failure → Exec A
or_raise none e = raise e
or_raise (some a) e = pure a

abbrev pub gets : {A : Type 0} → (World → A) → Exec A
gets f w = (ok (f w), w)

abbrev pub in_store : (StateStore → StateStore) → Exec (Unit {0})
in_store f w = (ok tt, record w { store = f w.store })

abbrev pub check : Bool → Failure → Exec (Unit {0})
check true e = pure tt
check false e = raise e

-- What a file holds goes through its schema, if it is there.
abbrev pub parsed : {A : Type 0} → (A → Bool) → (A → Failure) → Option A → Exec (Option A)
parsed valid refused none = pure none
parsed valid refused (some a) = check (valid a) (refused a) >> pure (some a)

-- `assertSafeStateIdentifier`
unfoldable pub guard : String → Exec (Unit {0})
guard id = check (is_safe_identifier id) (unsafe_identifier id)

abbrev pub or_first : Option String → String → Option String
or_first none id = some id
or_first (some first) id = some first

-- `writeIfMissing` keeps the project of the first call.
unfoldable pub initialize : String → Exec (Unit {0})
initialize project_id = in_store λ s. record s { project = or_first s.project project_id }

unfoldable pub save_task : Task → Exec (Unit {0})
unfolding guard
save_task t = do
  guard t.task_id
  check (valid_task t) (task_refused t)
  in_store λ s. record s { tasks = insert t.task_id t s.tasks }

unfoldable pub load_task : String → Exec (Option Task)
unfolding guard
load_task id = do guard id; value ← gets λ w. w.tasks id; parsed valid_task task_refused value

unfoldable pub save_record : TaskRecord → Exec (Unit {0})
unfolding guard
save_record r = do
  guard r.task_id
  check (valid_record r) (record_refused r)
  in_store λ s. record s { records = insert r.task_id r s.records }

unfoldable pub load_record : String → Exec (Option TaskRecord)
unfolding guard
load_record id = do
  guard id
  value ← gets λ w. w.records id
  parsed valid_record record_refused value

unfoldable pub save_worker_prompt : String → String → Exec (Unit {0})
unfolding guard
save_worker_prompt id p = do guard id; in_store λ s. record s { prompts = insert id p s.prompts }

unfoldable pub load_worker_prompt : String → Exec (Option String)
unfolding guard
load_worker_prompt id = do guard id; gets λ w. w.prompts id

unfoldable pub save_worker_result : String → WorkerResult → Exec (Unit {0})
unfolding guard
save_worker_result id r = do
  guard id
  check (valid_result r) (result_refused r)
  in_store λ s. record s { results = insert id r s.results }

unfoldable pub load_worker_result : String → Exec (Option WorkerResult)
unfolding guard
load_worker_result id = do
  guard id
  value ← gets λ w. w.results id
  parsed valid_result result_refused value

unfoldable pub save_review : String → Review → Exec (Unit {0})
unfolding guard
save_review id r = do
  guard id
  check (valid_review r) (review_refused r)
  in_store λ s. record s { reviews = insert id r s.reviews }

unfoldable pub load_review : String → Exec (Option Review)
unfolding guard
load_review id = do
  guard id
  value ← gets λ w. w.reviews id
  parsed valid_review review_refused value

unfoldable pub append_event : String → OrchestratorEvent → Exec (Unit {0})
unfolding guard
append_event id e = do
  guard id
  in_store λ s. record s { events = λ j. if str_eq id j then s.events j ++ e ∷ [] else s.events j }

module _ (env : OrchestratorDependencies) where
  -- `isoNow()` and `now()`
  unfoldable pub iso_now : Exec ℕ
  iso_now w = (ok (env.now w.ticks), record w { ticks = suc w.ticks })

  unfoldable pub fresh_run_id : Exec String
  fresh_run_id w = (ok (env.run_id w.ids), record w { ids = suc w.ids })

  unfoldable pub call_worker : Task → WorkerExecutionContext → Exec Attempt
  call_worker task context w =
      (ok (env.worker (length w.handed) task context), record w { handed = context ∷ w.handed })

  unfoldable pub call_supervisor : ReviewRequest → Exec Reply
  call_supervisor request w =
      (ok (env.supervisor (length w.asked) request), record w { asked = request ∷ w.asked })

  unfoldable pub get_run_directory : String → Exec String
  unfolding guard
  get_run_directory id = do guard id; pure (env.run_directory id)

  abbrev pub notify_by :
      Option (ℕ → SupervisorNotification → Bool) → SupervisorNotification → Exec (Unit {0})
  notify_by none n w = (ok tt, w)
  notify_by (some accepts) n w =
      check (accepts (length w.notified) n) (notify_rejected (length w.notified) n)
        (record w { notified = n ∷ w.notified })

  -- `notify?.(…)`: the adapter may have none, and its promise may be rejected.
  unfoldable pub notify : SupervisorNotification → Exec (Unit {0})
  notify n w = notify_by env.notify n w
