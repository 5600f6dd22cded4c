-- ===== src/Core/Orchestrator/Moves.antt =====
-- `move`, `event` and `block`: a record changes state, is saved, and the change is logged.
use agent_supervisor_runtime.Base.{String, Option, none, some, is_empty, if◌then◌else◌}
use agent_supervisor_runtime.Contracts.State.{TaskRecord, Detail, Extra, reason}
use agent_supervisor_runtime.Contracts.Supervisor.{NotificationType}
use agent_supervisor_runtime.Core.StateMachine.{StateEvent, block, transition}
use agent_supervisor_runtime.Core.Orchestrator.World.{
  OrchestratorDependencies, invalid_transition, Exec, pure, ◌>>=◌, ◌>>◌, or_raise, iso_now,
  save_record, append_event, notify,
}

-- An optional text that is tested for truth.
abbrev pub truthy : Option String → Option String
truthy none = none
truthy (some s) = if is_empty s then none else some s

module _ (env : OrchestratorDependencies) where
  unfoldable pub log_in : Option String → TaskRecord → String → Detail → Exec (Unit {0})
  log_in none r name payload = pure tt
  log_in (some run_id) r name payload = do
    now ← iso_now env
    append_event run_id (record {
      event = name;
      timestamp = now;
      task_id = r.task_id;
      run_id = run_id;
      detail = payload;
    })

  unfoldable pub event : TaskRecord → String → Detail → Exec (Unit {0})
  unfolding log_in iso_now append_event
  event r name payload = log_in (truthy r.current_run_id) r name payload

  abbrev pub log_if : Option String → TaskRecord → Detail → Exec (Unit {0})
  log_if none r payload = pure tt
  log_if (some name) r payload = event r name payload

  unfoldable pub move : TaskRecord → StateEvent → Option String → Detail → Exec TaskRecord
  unfolding event iso_now save_record
  move r e name payload = do
    state ← or_raise (transition r.state e) (invalid_transition r.state e)
    now ← iso_now env
    let next : TaskRecord = record r { state = state; updated_at = now }
    save_record next
    log_if name next payload
    pure next

  unfoldable pub block_task : TaskRecord → String → Extra → Exec TaskRecord
  unfolding move iso_now save_record notify
  block_task r why extra = do
    now ← iso_now env
    let stopped : TaskRecord = record r { blocked_reason = some why; updated_at = now }
    save_record stopped
    next ← move stopped block (some "task.blocked") (reason why extra)
    notify env (record { type = NotificationType.blocked; task_id = r.task_id; message = why })
    pure next
