-- ===== src/Conversations/Manager.antt =====
-- conversations/transport-manager.ts over the leases of conversations/lease.ts. The times that the
-- lease coordinator reads are arguments, in the order in which it reads them.
pub mod Handover
pub mod Preemption
use agent_supervisor_runtime.Base.{
  ℕ, String, Bool, true, false, not, ◌&&◌, Option, none, some, Map, insert, no_entries, leb, str_eq,
  if◌then◌else◌,
}
use agent_supervisor_runtime.Conversations.Lease.{
  TransportLease, LeaseError, lease_held, stale_lease, LeaseResult, LeaseStore, assert_authority,
}
use agent_supervisor_runtime.Conversations.Lease as Lease
use agent_supervisor_runtime.Conversations.Transport.{
  TransportStatus, offline, standby, active, draining, TransportHealth,
}
use agent_supervisor_runtime.Runtime.Session.{SupervisorSessionState}
use agent_supervisor_runtime.Runtime.Session as Session
pub use agent_supervisor_runtime.Conversations.Registrations.{
  Registration, Registrations, TransportManager, ManagerError, ManagerResult, Managed, status_of,
  status, session_state, supervisor_state_of, supervisor_state, has_detail, is_offline, apply_to,
  inspected, with_status, set_status, put_status, to_standby, mark_others_standby, in_flight,
  put_in_flight, required, not_registered, priority_not_finite, lease_error, ok, throw,
}
unfoldable pub use agent_supervisor_runtime.Conversations.Registrations.{
  register, apply_health, inspect_supervisor_state, make_active, set_exchange_in_flight,
  begin_drain,
}

abbrev pub Leased : Type 0
Leased = LeaseResult TransportLease × LeaseStore

abbrev pub activate : String → TransportManager → Leased → Managed (Option TransportLease)
activate holder m (Lease.throw e, s) = (throw (lease_error e), record m { leases = s })
activate holder m (Lease.ok l, s) = (ok (some l), make_active holder (record m { leases = s }))

-- The end of `acquire`, once the holder before has released.
abbrev pub hand_over :
    String → String → String → ℕ → ℕ → TransportManager → Leased → Managed (Option TransportLease)
hand_over binding_id holder previous ttl now m (Lease.throw e, s) =
    (throw (lease_error e), record m { leases = s })
hand_over binding_id holder previous ttl now m (Lease.ok l, s) =
    activate holder (put_status standby previous (record m { leases = s }))
      (Lease.acquire binding_id holder ttl now s)

abbrev pub preempt :
    Registration
    → TransportLease
    → Option Registration
    → String
    → String
    → ℕ
    → ℕ
    → ℕ
    → ℕ
    → TransportManager
    → Managed (Option TransportLease)
preempt requester current none binding_id holder ttl t2 t3 t4 m =
    (throw (not_registered current.holder), m)
preempt requester current (some r) binding_id holder ttl t2 t3 t4 m =
    if leb requester.priority r.priority
    then (throw (lease_error lease_held), m)
    else if r.exchange_in_flight
    then (ok none, put_status draining current.holder m)
    else hand_over binding_id holder current.holder ttl t4 (put_status draining current.holder m)
        (Lease.release binding_id current.holder current.epoch t2 t3 m.leases)

-- What the first `acquire` of the lease returned to a holder that is not the current one.
abbrev pub contend :
    Registration
    → TransportLease
    → String
    → String
    → ℕ
    → ℕ
    → ℕ
    → ℕ
    → TransportManager
    → Leased
    → Managed (Option TransportLease)
contend requester current binding_id holder ttl t2 t3 t4 m (Lease.ok l, s) =
    activate holder m (Lease.ok l, s)
contend requester current binding_id holder ttl t2 t3 t4 m (Lease.throw lease_held, s) =
    preempt requester current (m.registrations current.holder) binding_id holder ttl t2 t3 t4
      (record m { leases = s })
contend requester current binding_id holder ttl t2 t3 t4 m (Lease.throw e, s) =
    (throw (lease_error e), record m { leases = s })

abbrev pub acquire_over :
    Registration
    → Option TransportLease
    → String
    → String
    → ℕ
    → ℕ
    → ℕ
    → ℕ
    → ℕ
    → TransportManager
    → Managed (Option TransportLease)
acquire_over requester none binding_id holder ttl t1 t2 t3 t4 m =
    activate holder m (Lease.acquire binding_id holder ttl t1 m.leases)
acquire_over requester (some current) binding_id holder ttl t1 t2 t3 t4 m =
    if str_eq current.holder holder
    then activate holder m (Lease.acquire binding_id holder ttl t1 m.leases)
    else contend requester current binding_id holder ttl t2 t3 t4 m
        (Lease.acquire binding_id holder ttl t1 m.leases)

abbrev pub acquire_for :
    Option Registration
    → String
    → String
    → ℕ
    → ℕ
    → ℕ
    → ℕ
    → ℕ
    → TransportManager
    → Managed (Option TransportLease)
acquire_for none binding_id holder ttl t1 t2 t3 t4 m = (throw (not_registered holder), m)
acquire_for (some requester) binding_id holder ttl t1 t2 t3 t4 m =
    acquire_over requester (m.leases binding_id) binding_id holder ttl t1 t2 t3 t4 m

unfoldable pub acquire :
    String → String → ℕ → ℕ → ℕ → ℕ → ℕ → TransportManager → Managed (Option TransportLease)
unfolding Lease.acquire Lease.release
acquire binding_id holder ttl t1 t2 t3 t4 m =
    acquire_for (m.registrations holder) binding_id holder ttl t1 t2 t3 t4 m

abbrev pub renewed : String → TransportManager → Leased → Managed TransportLease
renewed holder m (Lease.throw e, s) = (throw (lease_error e), record m { leases = s })
renewed holder m (Lease.ok l, s) = (ok l, put_status active holder (record m { leases = s }))

abbrev pub renew_for :
    Option Registration
    → String
    → String
    → ℕ
    → ℕ
    → ℕ
    → ℕ
    → TransportManager
    → Managed TransportLease
renew_for none binding_id holder epoch ttl t1 t2 m = (throw (not_registered holder), m)
renew_for (some r) binding_id holder epoch ttl t1 t2 m =
    renewed holder m (Lease.renew binding_id holder epoch ttl t1 t2 m.leases)

unfoldable pub renew : String → String → ℕ → ℕ → ℕ → ℕ → TransportManager → Managed TransportLease
unfolding Lease.renew
renew binding_id holder epoch ttl t1 t2 m =
    renew_for (m.registrations holder) binding_id holder epoch ttl t1 t2 m

abbrev pub released : String → TransportManager → Leased → Managed (Unit {0})
released holder m (Lease.throw e, s) = (throw (lease_error e), record m { leases = s })
released holder m (Lease.ok l, s) =
    required (m.registrations holder) holder (record m { leases = s })
      (put_status standby holder (record m { leases = s }))

unfoldable pub release : String → String → ℕ → ℕ → ℕ → TransportManager → Managed (Unit {0})
unfolding Lease.release
release binding_id holder epoch t1 t2 m =
    released holder m (Lease.release binding_id holder epoch t1 t2 m.leases)

abbrev pub is_active : TransportStatus → Bool
is_active active = true
is_active _ = false

abbrev pub authorised : LeaseResult TransportLease → ManagerResult (Unit {0})
authorised (Lease.ok l) = ok tt
authorised (Lease.throw e) = throw (lease_error e)

abbrev pub authority_for :
    Option Registration → String → String → ℕ → ℕ → TransportManager → ManagerResult (Unit {0})
authority_for none binding_id holder epoch now m = throw (not_registered holder)
authority_for (some r) binding_id holder epoch now m =
    if is_active r.status
    then authorised (assert_authority binding_id holder epoch now m.leases)
    else throw (lease_error stale_lease)

unfoldable pub assert_send_authority :
    String → String → ℕ → ℕ → TransportManager → ManagerResult (Unit {0})
unfolding assert_authority
assert_send_authority binding_id holder epoch now m =
    authority_for (m.registrations holder) binding_id holder epoch now m
