-- ===== src/Core/Orchestrator/Effects.antt =====
-- What the smallest steps do: logging, moves and blocks.
use agent_supervisor_runtime.Base.{
  suc, ap, ◌∙◌, insert_self, Bool-cases, inl, inr, String, false, List, Option, none, some, ◌≡◌,
  refl, arith, eq_iff,
}
use agent_supervisor_runtime.Contracts.Identifiers.{is_safe_identifier}
use agent_supervisor_runtime.Contracts.Supervisor.{SupervisorNotification, NotificationType}
use agent_supervisor_runtime.Contracts.State.{RunState, blocked, TaskRecord, Extra, Detail, reason}
use agent_supervisor_runtime.Core.StateMachine.{StateEvent, block, transition, is_terminal}
use agent_supervisor_runtime.Core.Orchestrator.World.{
  OrchestratorDependencies, World, Failure, unsafe_identifier, Exec, ◌>>◌, guard, append_event,
  notify, iso_now, pure,
}
use agent_supervisor_runtime.Core.Orchestrator.Moves.{
  truthy, log_in, log_if, event, move, block_task,
}
use agent_supervisor_runtime.Core.Orchestrator.Identity.{identity_error, or_block}
use agent_supervisor_runtime.Core.Orchestrator.Calls.{
  Ensures, Ensures-bind, Refused, saved_record, notified,
}

-- What a small step leaves that the store or a notification stopped.
pub record Stops (env : OrchestratorDependencies) (w : World) (e : Failure) (w' : World)
    : Type 0 where
  pub refused : Refused env e
  pub handed : w'.handed ≡ w.handed

stops :
    (env : OrchestratorDependencies) (w w' : World)
    → w'.handed ≡ w.handed
    → (e : Failure) → Refused env e
    → Stops env w e w'
stops env w w' h e k = record { refused = k; handed = h }

-- Logging leaves all but the log and the clock alone.
pub record Logged (w w' : World) : Type 0 where
  pub records : w'.records ≡ w.records
  pub results : w'.results ≡ w.results
  pub reviews : w'.reviews ≡ w.reviews
  pub handed : w'.handed ≡ w.handed

log_in-Logged :
    (env : OrchestratorDependencies) (o : Option String) (r : TaskRecord) (name : String)
    (payload : Detail) (w : World)
    → Ensures (λ (t : Unit {0}) w'. Logged w w') (Stops env w) (log_in env o r name payload w)
unfolding log_in guard iso_now append_event
log_in-Logged env none r name payload w = record {
  records = refl;
  results = refl;
  reviews = refl;
  handed = refl;
}
log_in-Logged env (some id) r name payload w = elim (Bool-cases (is_safe_identifier id)) [
  | inl v ↦ rw v (record { records = refl; results = refl; reviews = refl; handed = refl })
  | inr v ↦ rw v (stops env w _ refl (unsafe_identifier id) v)
]

pub event-Logged :
    (env : OrchestratorDependencies) (r : TaskRecord) (name : String) (payload : Detail) (w : World)
    → Ensures (λ (t : Unit {0}) w'. Logged w w') (Stops env w) (event env r name payload w)
unfolding event
event-Logged env r name payload w = log_in-Logged env (truthy r.current_run_id) r name payload w

log_if-Logged :
    (env : OrchestratorDependencies) (o : Option String) (r : TaskRecord) (payload : Detail)
    (w : World)
    → Ensures (λ (t : Unit {0}) w'. Logged w w') (Stops env w) (log_if env o r payload w)
log_if-Logged env none r payload w = record {
  records = refl;
  results = refl;
  reviews = refl;
  handed = refl;
}
log_if-Logged env (some name) r payload w = event-Logged env r name payload w

-- What a move leaves behind.
pub record Moved (r : TaskRecord) (s : RunState) (w : World) (r' : TaskRecord) (w' : World)
    : Type 0 where
  pub state : r'.state ≡ s
  pub revisions : r'.revision_count ≡ r.revision_count
  pub retries : r'.retry_count ≡ r.retry_count
  pub task : r'.task_id ≡ r.task_id
  pub run : r'.current_run_id ≡ r.current_run_id
  pub runs : r'.run_count ≡ r.run_count
  pub saved : w'.records r'.task_id ≡ some r'
  pub handed : w'.handed ≡ w.handed
  pub results : w'.results ≡ w.results
  pub reviews : w'.reviews ≡ w.reviews

-- A move that the table allows throws only where the store refuses.
pub move-Moved :
    (env : OrchestratorDependencies) (r : TaskRecord) (e : StateEvent) (s : RunState)
    (name : Option String) (payload : Detail) (w : World)
    → transition r.state e ≡ some s
    → Ensures (Moved r s w) (Stops env w) (move env r e name payload w)
unfolding move
move-Moved env r e s name payload w h =
    let next : TaskRecord = record r { state = s; updated_at = env.now w.ticks } in
    rw h (
      saved_record env (Moved r s w) (Stops env w) (record w { ticks = suc w.ticks })
        (stops env w _ refl) next _
        (Ensures-bind _ (Stops env _) (Moved r s w) (Stops env w) (log_if env name next payload _)
          (λ t. pure next) (log_if-Logged env name next payload _)
          (λ e w' k. stops env w w' k.handed e k.refused)
          (λ t w' k. record {
            state = refl;
            revisions = refl;
            retries = refl;
            task = refl;
            run = refl;
            runs = refl;
            saved = ap (λ f. f r.task_id) k.records ∙ insert_self r.task_id next w.records;
            handed = k.handed;
            results = k.results;
            reviews = k.reviews;
          })))

Moved-again :
    (env : OrchestratorDependencies) (r from r' : TaskRecord) (s : RunState) (w v w' : World)
    (ns : List SupervisorNotification)
    → from.revision_count ≡ r.revision_count
    → from.retry_count ≡ r.retry_count
    → from.task_id ≡ r.task_id
    → from.current_run_id ≡ r.current_run_id
    → from.run_count ≡ r.run_count
    → v.handed ≡ w.handed
    → v.results ≡ w.results
    → v.reviews ≡ w.reviews
    → Moved from s v r' w'
    → Moved r s w r' (record w' { notified = ns })
Moved-again env r from r' s w v w' ns a b c d e h i j m = record {
  state = m.state;
  revisions = m.revisions ∙ a;
  retries = m.retries ∙ b;
  task = m.task ∙ c;
  run = m.run ∙ d;
  runs = m.runs ∙ e;
  saved = m.saved;
  handed = m.handed ∙ h;
  results = m.results ∙ i;
  reviews = m.reviews ∙ j;
}

block_allowed : (s : RunState) → is_terminal s ≡ false → transition s block ≡ some blocked
unfolding transition
block_allowed s h = ground arith

-- A live task can always be blocked, unless the store or the notification refuses.
pub block_task-Moved :
    (env : OrchestratorDependencies) (r : TaskRecord) (why : String) (extra : Extra) (w : World)
    → is_terminal r.state ≡ false
    → Ensures (Moved r blocked w) (Stops env w) (block_task env r why extra w)
unfolding block_task
block_task-Moved env r why extra w h =
    let stopped : TaskRecord = record r {
      blocked_reason = some why;
      updated_at = env.now w.ticks;
    } in
    let n : SupervisorNotification = record {
      type = NotificationType.blocked;
      task_id = r.task_id;
      message = why;
    } in
    saved_record env (Moved r blocked w) (Stops env w) (record w { ticks = suc w.ticks })
      (stops env w _ refl) stopped _
      (Ensures-bind (Moved stopped blocked _) (Stops env _) (Moved r blocked w) (Stops env w) _
        (λ next. notify env n >> pure next)
        (move-Moved env stopped block blocked (some "task.blocked") (reason why extra) _
          (block_allowed r.state h))
        (λ e w' k. stops env w w' k.handed e k.refused)
        (λ r' w' m.
          notified env (Moved r blocked w) (Stops env w) w' n (λ ns e k. stops env w _ m.handed e k)
            (λ t. pure r')
            (λ ns.
              Moved-again env r stopped r' blocked w _ w' ns refl refl refl refl refl refl refl refl
                m)))

-- No identity error means that both ids agree.
pub identity_agrees :
    (task_id run_id received_task_id received_run_id : String)
    → identity_error task_id run_id received_task_id received_run_id ≡ none
    → (received_task_id ≡ task_id) × (received_run_id ≡ run_id)
unfolding identity_error
identity_agrees task_id run_id received_task_id received_run_id h =
    ground (arith, eq_iff received_task_id task_id, eq_iff received_run_id run_id)

pub truthy-some : (o : Option String) (s : String) → truthy o ≡ some s → o ≡ some s
truthy-some none s h = cc
truthy-some (some t) s h = ground arith

module _ (env : OrchestratorDependencies) where
  pub or_block_either {ℓ} :
      (R : TaskRecord → World → Type ℓ) (Q : Failure → World → Type ℓ) (o : Option Extra)
      (r : TaskRecord) (why : String) (rest : Exec TaskRecord) (w : World)
      → ((extra : Extra) → Ensures R Q (block_task env r why extra w))
      → (o ≡ none → Ensures R Q (rest w))
      → Ensures R Q (or_block env o r why rest w)
  or_block_either R Q none r why rest w stop go = go refl
  or_block_either R Q (some extra) r why rest w stop go = stop extra
