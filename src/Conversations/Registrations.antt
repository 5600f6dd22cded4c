-- ===== src/Conversations/Registrations.antt =====
-- conversations/transport-manager.ts: the registrations, their statuses and what changes them without
-- a lease.
use agent_supervisor_runtime.Base.{
  ℕ, String, Bool, true, false, Option, none, some, Map, insert, str_eq, if◌then◌else◌,
}
use agent_supervisor_runtime.Conversations.Lease.{LeaseError, LeaseStore}
use agent_supervisor_runtime.Conversations.Transport.{
  TransportStatus, offline, standby, active, draining, TransportHealth,
}
use agent_supervisor_runtime.Runtime.Session.{SupervisorSessionState}
use agent_supervisor_runtime.Runtime.Session as Session

pub record Registration : Type 0 where
  pub priority : ℕ
  pub status : TransportStatus
  pub exchange_in_flight : Bool

abbrev pub Registrations : Type 0
Registrations = Map Registration

pub record TransportManager : Type 0 where
  pub registrations : Registrations
  pub leases : LeaseStore

pub data ManagerError : Type 0 where
  not_registered : String → ManagerError
  priority_not_finite : ManagerError
  lease_error : LeaseError → ManagerError

pub data ManagerResult {ℓ} (A : Type ℓ) : Type ℓ where
  ok : A → ManagerResult A
  throw : ManagerError → ManagerResult A

abbrev pub Managed : Type 0 → Type 0
Managed A = ManagerResult A × TransportManager

-- A priority that is not finite is `none`.
unfoldable pub register : String → Option ℕ → TransportManager → Managed (Unit {0})
register holder none m = (throw priority_not_finite, m)
register holder (some priority) m = (
  ok tt,
  record m {
    registrations =
        insert holder (record { priority = priority; status = standby; exchange_in_flight = false })
          m.registrations;
  },
)

abbrev pub status_of : Option Registration → Option TransportStatus
status_of none = none
status_of (some r) = some r.status

abbrev pub status : String → TransportManager → Option TransportStatus
status holder m = status_of (m.registrations holder)

-- A drained transport still works, with less.
abbrev pub session_state : TransportStatus → SupervisorSessionState
session_state offline = Session.offline
session_state standby = Session.standby
session_state active = Session.active
session_state draining = Session.degraded

abbrev pub supervisor_state_of : Option TransportStatus → Option SupervisorSessionState
supervisor_state_of none = none
supervisor_state_of (some s) = some (session_state s)

abbrev pub supervisor_state : String → TransportManager → Option SupervisorSessionState
supervisor_state holder m = supervisor_state_of (status holder m)

abbrev pub has_detail : Option String → String → Bool
has_detail none text = false
has_detail (some detail) text = str_eq detail text

abbrev pub is_offline : TransportStatus → Bool
is_offline offline = true
is_offline _ = false

abbrev pub apply_to :
    Option Registration → String → TransportHealth → ManagerResult SupervisorSessionState
apply_to none holder health = throw (not_registered holder)
apply_to (some r) holder health =
    if has_detail health.detail "AUTH_REQUIRED"
    then ok Session.auth_required
    else if has_detail health.detail "INCOMPATIBLE"
    then ok Session.incompatible
    else if is_offline health.status
    then ok Session.offline
    else ok (session_state r.status)

unfoldable pub apply_health :
    String → TransportHealth → TransportManager → ManagerResult SupervisorSessionState
apply_health holder health m = apply_to (m.registrations holder) holder health

abbrev pub inspected :
    Option Registration
    → String
    → (String → TransportHealth)
    → TransportManager
    → ManagerResult SupervisorSessionState
inspected none holder health m = throw (not_registered holder)
inspected (some r) holder health m = apply_health holder (health holder) m

-- `health` answers for the transports.
unfoldable pub inspect_supervisor_state :
    String → (String → TransportHealth) → TransportManager → ManagerResult SupervisorSessionState
unfolding apply_health
inspect_supervisor_state holder health m = inspected (m.registrations holder) holder health m

-- A field of the registration that the map holds is set in place.
abbrev pub with_status : TransportStatus → Option Registration → Option Registration
with_status s none = none
with_status s (some r) = some (record r { status = s })

abbrev pub set_status : TransportStatus → String → Registrations → Registrations
set_status s holder regs j = if str_eq holder j then with_status s (regs j) else regs j

abbrev pub put_status : TransportStatus → String → TransportManager → TransportManager
put_status s holder m = record m { registrations = set_status s holder m.registrations }

abbrev pub to_standby : Option Registration → Option Registration
to_standby none = none
to_standby (some r) = if is_offline r.status then some r else some (record r { status = standby })

abbrev pub mark_others_standby : String → Registrations → Registrations
mark_others_standby holder regs j = if str_eq holder j then regs j else to_standby (regs j)

unfoldable pub make_active : String → TransportManager → TransportManager
make_active holder m = record m {
  registrations = mark_others_standby holder (set_status active holder m.registrations);
}

abbrev pub in_flight : Bool → Option Registration → Option Registration
in_flight value none = none
in_flight value (some r) = some (record r { exchange_in_flight = value })

abbrev pub put_in_flight : Bool → String → TransportManager → TransportManager
put_in_flight value holder m = record m {
  registrations =
      λ j. if str_eq holder j then in_flight value (m.registrations j) else m.registrations j;
}

-- `requireRegistration`, and what follows it.
abbrev pub required :
    Option Registration → String → TransportManager → TransportManager → Managed (Unit {0})
required none holder m m' = (throw (not_registered holder), m)
required (some r) holder m m' = (ok tt, m')

unfoldable pub set_exchange_in_flight : String → Bool → TransportManager → Managed (Unit {0})
set_exchange_in_flight holder value m =
    required (m.registrations holder) holder m (put_in_flight value holder m)

unfoldable pub begin_drain : String → TransportManager → Managed (Unit {0})
begin_drain holder m = required (m.registrations holder) holder m (put_status draining holder m)
