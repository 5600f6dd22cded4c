-- ===== src/Runtime/Session.antt =====
-- runtime/supervisor-session.ts: how connectivity events change the state of a session.
pub mod Connectivity
use agent_supervisor_runtime.Base.{List, [], ◌∷◌}
use agent_supervisor_runtime.Contracts.State.{RunState}

pub data SupervisorSessionState : Type 0 where
  offline connecting auth_required reconciling standby active degraded : SupervisorSessionState
  incompatible : SupervisorSessionState

pub data SupervisorConnectivityEvent : Type 0 where
  connect_requested chrome_closed login_expired dom_incompatible : SupervisorConnectivityEvent
  native_host_crashed runtime_restarted reconciled lease_standby : SupervisorConnectivityEvent
  lease_active transport_degraded : SupervisorConnectivityEvent

pub record SupervisorSession : Type 0 where
  pub state : SupervisorSessionState
  pub task_state : RunState

abbrev pub create_supervisor_session : RunState → SupervisorSessionState → SupervisorSession
create_supervisor_session task_state state = record { state = state; task_state = task_state }

unfoldable pub state_after : SupervisorConnectivityEvent → SupervisorSessionState
state_after connect_requested = connecting
state_after chrome_closed = offline
state_after login_expired = auth_required
state_after dom_incompatible = incompatible
state_after native_host_crashed = connecting
state_after runtime_restarted = reconciling
state_after reconciled = standby
state_after lease_standby = standby
state_after lease_active = active
state_after transport_degraded = degraded

abbrev pub transition_supervisor_session :
    SupervisorSession → SupervisorConnectivityEvent → SupervisorSession
transition_supervisor_session session event = record {
  state = state_after event;
  task_state = session.task_state;
}

abbrev pub transitions : SupervisorSession → List SupervisorConnectivityEvent → SupervisorSession
transitions session [] = session
transitions session (e ∷ es) = transitions (transition_supervisor_session session e) es
