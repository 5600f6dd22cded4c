-- ===== src/Core/Orchestrator/Calls.antt =====
-- Postconditions of calls that may throw, and what the calls of the store and of a notification do
-- before the rest of a method.
use agent_supervisor_runtime.Base.{
  ℕ, insert, length, String, Bool, true, false, List, ◌∷◌, Option, none, some, ◌≡◌, refl,
}
use agent_supervisor_runtime.Contracts.Identifiers.{is_safe_identifier}
use agent_supervisor_runtime.Contracts.Task.{Task, valid_task}
use agent_supervisor_runtime.Contracts.Result.{WorkerResult, valid_result}
use agent_supervisor_runtime.Contracts.Review.{Review, valid_review}
use agent_supervisor_runtime.Contracts.Supervisor.{SupervisorNotification}
use agent_supervisor_runtime.Contracts.State.{TaskRecord, valid_record}
use agent_supervisor_runtime.Core.Orchestrator.World.{
  OrchestratorDependencies, World, Failure, unsafe_identifier, task_refused, record_refused,
  result_refused, review_refused, notify_rejected, Outcome, ok, throw, Exec, ◌>>◌, continue, check,
  guard, parsed, save_task, save_record, save_worker_prompt, load_worker_prompt, save_worker_result,
  load_worker_result, save_review, load_review, get_run_directory, notify, notify_by, pure,
}

abbrev pub Ensures {ℓ} :
    {A : Type 0} → (A → World → Type ℓ) → (Failure → World → Type ℓ) → Outcome A × World → Type ℓ
Ensures P Q (ok a, w) = P a w
Ensures P Q (throw e, w) = Q e w

-- A step that may throw, and what follows it.
pub Ensures-bind {ℓ} :
    {A B : Type 0} (P : A → World → Type 0) (S : Failure → World → Type 0) (R : B → World → Type ℓ)
    (Q : Failure → World → Type ℓ) (x : Outcome A × World) (f : A → Exec B)
    → Ensures P S x
    → ((e : Failure) (w' : World) → S e w' → Q e w')
    → ((a : A) (w' : World) → P a w' → Ensures R Q (f a w'))
    → Ensures R Q (continue x f)
Ensures-bind P S R Q (ok a, w) f h q k = k a w h
Ensures-bind P S R Q (throw e, w) f h q k = q e w h

pub Ensures-map {ℓ κ} :
    {A : Type 0} (P : A → World → Type κ) (S : Failure → World → Type κ) (R : A → World → Type ℓ)
    (Q : Failure → World → Type ℓ) (x : Outcome A × World)
    → ((a : A) (w' : World) → P a w' → R a w')
    → ((e : Failure) (w' : World) → S e w' → Q e w')
    → Ensures P S x
    → Ensures R Q x
Ensures-map P S R Q (ok a, w) f q h = f a w h
Ensures-map P S R Q (throw e, w) f q h = q e w h

-- The store or a notification refused, and with reason.
abbrev pub Refused : OrchestratorDependencies → Failure → Type 0
Refused env (unsafe_identifier id) = is_safe_identifier id ≡ false
Refused env (task_refused t) = valid_task t ≡ false
Refused env (record_refused r) = valid_record r ≡ false
Refused env (result_refused r) = valid_result r ≡ false
Refused env (review_refused r) = valid_review r ≡ false
Refused env (notify_rejected i n) =
    (accepts : (ℕ → SupervisorNotification → Bool)) × (env.notify ≡ some accepts)
    × (accepts i n ≡ false)
Refused env _ = ⊥

-- A call of the store or of the adapter, and what follows where nothing is refused.
module _ (env : OrchestratorDependencies) {B : Type 0} (R : B → World → Type 0)
    (Q : Failure → World → Type 0) (w : World) (stop : (e : Failure) → Refused env e → Q e w) where
  checked :
      {A : Type 0} (b : Bool) (e : Failure) (m : Exec A) (f : A → Exec B)
      → (b ≡ false → Refused env e)
      → Ensures R Q (continue (m w) f)
      → Ensures R Q (continue ((check b e >> m) w) f)
  checked true e m f k h = h
  checked false e m f k h = stop e (k refl)

  guarded :
      {A : Type 0} (id : String) (m : Exec A) (f : A → Exec B)
      → Ensures R Q (continue (m w) f)
      → Ensures R Q (continue ((guard id >> m) w) f)
  unfolding guard
  guarded id m f h = checked (is_safe_identifier id) (unsafe_identifier id) m f (λ k. k) h

  loaded :
      {A : Type 0} (valid : A → Bool) (refused : A → Failure) (o : Option A) (f : Option A → Exec B)
      → ((a : A) → valid a ≡ false → Refused env (refused a))
      → Ensures R Q (f o w)
      → Ensures R Q (continue (parsed valid refused o w) f)
  loaded valid refused none f k h = h
  loaded valid refused (some a) f k h = checked (valid a) (refused a) (pure (some a)) f (k a) h

  pub saved_task :
      (t : Task) (f : Unit {0} → Exec B)
      → Ensures R Q
          (f tt (record w { store = record w.store { tasks = insert t.task_id t w.tasks } }))
      → Ensures R Q (continue (save_task t w) f)
  unfolding save_task
  saved_task t f h = guarded t.task_id _ f (checked (valid_task t) (task_refused t) _ f (λ k. k) h)

  pub saved_record :
      (r : TaskRecord) (f : Unit {0} → Exec B)
      → Ensures R Q
          (f tt (record w { store = record w.store { records = insert r.task_id r w.records } }))
      → Ensures R Q (continue (save_record r w) f)
  unfolding save_record
  saved_record r f h =
      guarded r.task_id _ f (checked (valid_record r) (record_refused r) _ f (λ k. k) h)

  pub saved_prompt :
      (id prompt : String) (f : Unit {0} → Exec B)
      → Ensures R Q
          (f tt (record w { store = record w.store { prompts = insert id prompt w.prompts } }))
      → Ensures R Q (continue (save_worker_prompt id prompt w) f)
  unfolding save_worker_prompt
  saved_prompt id prompt f h = guarded id _ f h

  pub loaded_prompt :
      (id : String) (f : Option String → Exec B)
      → Ensures R Q (f (w.prompts id) w)
      → Ensures R Q (continue (load_worker_prompt id w) f)
  unfolding load_worker_prompt
  loaded_prompt id f h = guarded id _ f h

  pub got_directory :
      (id : String) (f : String → Exec B)
      → Ensures R Q (f (env.run_directory id) w)
      → Ensures R Q (continue (get_run_directory env id w) f)
  unfolding get_run_directory
  got_directory id f h = guarded id _ f h

  pub saved_result :
      (id : String) (r : WorkerResult) (f : Unit {0} → Exec B)
      → Ensures R Q (f tt (record w { store = record w.store { results = insert id r w.results } }))
      → Ensures R Q (continue (save_worker_result id r w) f)
  unfolding save_worker_result
  saved_result id r f h =
      guarded id _ f (checked (valid_result r) (result_refused r) _ f (λ k. k) h)

  pub loaded_result :
      (id : String) (f : Option WorkerResult → Exec B)
      → Ensures R Q (f (w.results id) w)
      → Ensures R Q (continue (load_worker_result id w) f)
  unfolding load_worker_result
  loaded_result id f h =
      guarded id _ f (loaded valid_result result_refused (w.results id) f (λ a k. k) h)

  pub saved_review :
      (id : String) (r : Review) (f : Unit {0} → Exec B)
      → Ensures R Q (f tt (record w { store = record w.store { reviews = insert id r w.reviews } }))
      → Ensures R Q (continue (save_review id r w) f)
  unfolding save_review
  saved_review id r f h =
      guarded id _ f (checked (valid_review r) (review_refused r) _ f (λ k. k) h)

  pub loaded_review :
      (id : String) (f : Option Review → Exec B)
      → Ensures R Q (f (w.reviews id) w)
      → Ensures R Q (continue (load_review id w) f)
  unfolding load_review
  loaded_review id f h =
      guarded id _ f (loaded valid_review review_refused (w.reviews id) f (λ a k. k) h)

module _ (env : OrchestratorDependencies) {B : Type 0} (R : B → World → Type 0)
    (Q : Failure → World → Type 0) (w : World) (n : SupervisorNotification)
    (stop : (ns : List SupervisorNotification) (e : Failure)
      → Refused env e
      → Q e (record w { notified = ns }))
    (f : Unit {0} → Exec B)
    (go : (ns : List SupervisorNotification)
      → Ensures R Q (f tt (record w { notified = ns }))) where
  answered :
      (accepts : ℕ → SupervisorNotification → Bool) (b : Bool)
      → env.notify ≡ some accepts
      → accepts (length w.notified) n ≡ b
      → Ensures R Q (
          continue
            (check b
              (notify_rejected (length w.notified) n)
              (record w { notified = n ∷ w.notified }))
            f)
  answered accepts true e k = go (n ∷ w.notified)
  answered accepts false e k =
      stop (n ∷ w.notified) (notify_rejected (length w.notified) n) (accepts, e, k)

  notified_by :
      (o : Option (ℕ → SupervisorNotification → Bool))
      → env.notify ≡ o
      → Ensures R Q (continue (notify_by env o n w) f)
  notified_by none e = go w.notified
  notified_by (some accepts) e = answered accepts (accepts (length w.notified) n) e refl

  -- A notification is noted whether it is rejected or not.
  pub notified : Ensures R Q (continue (notify env n w) f)
  unfolding notify
  notified = notified_by env.notify refl
