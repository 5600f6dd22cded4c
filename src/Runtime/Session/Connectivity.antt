-- ===== src/Runtime/Session/Connectivity.antt =====
-- Connectivity never touches the task, and only the last event counts.
use agent_supervisor_runtime.Base.{List, [], ◌∷◌, ◌++◌, ◌≡◌, ◌↔◌, refl, arith}
use agent_supervisor_runtime.Runtime.Session.{
  SupervisorSession, SupervisorConnectivityEvent, lease_active, active, state_after,
  transition_supervisor_session, transitions,
}

task_state-transitions :
    (session : SupervisorSession) (es : List SupervisorConnectivityEvent)
    → (transitions session es).task_state ≡ session.task_state
task_state-transitions session [] = refl
task_state-transitions session (e ∷ es) =
    task_state-transitions (transition_supervisor_session session e) es

transitions-append :
    (session : SupervisorSession) (es : List SupervisorConnectivityEvent)
    (e : SupervisorConnectivityEvent)
    → (transitions session (es ++ e ∷ [])).state ≡ state_after e
transitions-append session [] e = refl
transitions-append session (x ∷ es) e =
    transitions-append (transition_supervisor_session session x) es e

state_after-active :
    (e : SupervisorConnectivityEvent) → (state_after e ≡ active) ↔ (e ≡ lease_active)
unfolding state_after
state_after-active e = ground arith

-- Whatever connectivity events came before the last one, the task's state is what it was, and the
-- session is active exactly if the last event was that of an active lease.
pub transitions-active :
    (session : SupervisorSession) (es : List SupervisorConnectivityEvent)
    (e : SupervisorConnectivityEvent)
    → ((transitions session (es ++ e ∷ [])).task_state ≡ session.task_state)
      × (((transitions session (es ++ e ∷ [])).state ≡ active) ↔ (e ≡ lease_active))
transitions-active session es e = (
  task_state-transitions session (es ++ e ∷ []),
  rw (transitions-append session es e) (state_after-active e),
)
