-- ===== src/Companion/Connecting.antt =====
-- companion/transport.ts: `connect`.
pub mod Stuck
use agent_supervisor_runtime.Base.{
  ℕ, zero, suc, ◌+◌, ◌-◌, String, Bool, true, false, not, ◌&&◌, ◌||◌, List, [], ◌∷◌, Option, none,
  some, min, max, leb, ltb, nat_eq, str_eq, is_some, if◌then◌else◌,
}
use agent_supervisor_runtime.Conversations.Lease.{TransportLease, stale_lease, lease_held}
use agent_supervisor_runtime.Conversations.Transport.{
  ConversationBinding, valid_binding, TransportStatus, offline, active, draining, TransportHealth,
  TransportMessage, ResponseRequest,
}
use agent_supervisor_runtime.Conversations.Manager.{
  ManagerResult, TransportManager, lease_error, status, register, acquire, renew, release,
  set_exchange_in_flight, assert_send_authority,
}
use agent_supervisor_runtime.Conversations.Manager as Manager
use agent_supervisor_runtime.Companion.Page.{
  PageCapabilityReport, PageCompatibilityStatus, compatible, PageMessage, PageMessageRole,
  assistant, user, GenerationState, idle, evaluate_page_compatibility,
}
use agent_supervisor_runtime.Companion.State.{
  Companion, CompanionOptions, CompanionError, auth_required, incompatible, not_active,
  wrong_binding, response_timeout, invalid_binding, browser_error, out_of_fuel, manager_error,
  is_own, CompanionResult, ok, throw, Call, ◌>>=◌, ◌>>◌, pure, raise, check, or_raise, gets,
  from_manager, tick, delay, browser, ask,
}
use agent_supervisor_runtime.Companion.Ready.{
  set_detail, set_lease, is_bound_elsewhere, has_status, wait_for_page_ready,
}

module _ (o : CompanionOptions) where
  abbrev pub page_at : Call (Unit {0})
  page_at s = if o.has_page s.calls then pure tt s else browser o o.new_page s

  abbrev pub set_context : Call (Unit {0})
  set_context s = (ok tt, record s { context = true })

  abbrev pub set_driver : String → Call (Unit {0})
  set_driver expected s = (ok tt, record s { driver = some expected })

  -- Only where there is no context; one that stays from a call that threw counts.
  unfoldable pub open_page : ConversationBinding → Call (Unit {0})
  unfolding browser
  open_page binding = do
    browser o o.launch
    set_context
    page_at
    browser o (λ n. o.goto n binding.conversation_url)
    set_driver binding.conversation_id

  abbrev pub renewed :
      ManagerResult TransportLease × TransportManager → Call (Option TransportLease)
  renewed (Manager.ok l, m) s = (ok (some l), record s { manager = m })
  renewed (Manager.throw (lease_error stale_lease), m) s =
      (ok none, record s { manager = m; lease = none })
  renewed (Manager.throw e, m) s = (throw (manager_error e), record s { manager = m })

  -- Each read of the manager's clock is a tick.
  abbrev pub renew_held : Option TransportLease → String → Call (Option TransportLease)
  renew_held none binding_id s = (ok none, s)
  renew_held (some l) binding_id s =
      if has_status active (status o.id s.manager)
      then renewed
          (renew binding_id o.id l.epoch o.lease_ttl_ms (tick o s).time (tick o (tick o s)).time
            s.manager)
          (tick o (tick o s))
      else (ok none, s)

  unfoldable pub renew_lease : String → Call (Option TransportLease)
  unfolding renew tick
  renew_lease binding_id s = renew_held s.lease binding_id s

  unfoldable pub acquire_lease : String → Call (Option TransportLease)
  unfolding acquire tick
  acquire_lease binding_id s =
      from_manager
        (acquire binding_id o.id o.lease_ttl_ms (tick o s).time (tick o (tick o s)).time
          (tick o (tick o (tick o s))).time (tick o (tick o (tick o (tick o s)))).time s.manager)
        (tick o (tick o (tick o (tick o s))))

  abbrev pub or_acquire : Option TransportLease → String → Call (Option TransportLease)
  or_acquire none binding_id = acquire_lease binding_id
  or_acquire (some l) binding_id = pure (some l)

  abbrev pub keep_lease : Option TransportLease → Call (Unit {0})
  keep_lease none = set_detail none
  keep_lease (some l) = do set_lease (some l); set_detail none

  abbrev pub unless_held :
      CompanionResult (Unit {0}) × Companion → CompanionResult (Unit {0}) × Companion
  unless_held (throw (manager_error (lease_error lease_held)), s) =
      (ok tt, record s { lease = none; detail = some "Higher-priority transport is active" })
  unless_held x = x

  unfoldable pub take_lease : String → Call (Unit {0})
  unfolding renew_lease acquire_lease
  take_lease binding_id s = unless_held (
      (renew_lease binding_id >>= λ renewed.
      or_acquire renewed binding_id >>= λ acquired. keep_lease acquired)
        s)

  abbrev pub bind_to : ConversationBinding → Call (Unit {0})
  bind_to binding s = (ok tt, record s { binding = some binding })

  abbrev pub open_unless : Bool → ConversationBinding → Call (Unit {0})
  open_unless true binding = pure tt
  open_unless false binding = open_page binding

  abbrev pub lease_unless_draining : String → Call (Unit {0})
  lease_unless_draining binding_id s =
      if has_status draining (status o.id s.manager)
      then set_detail (some "Draining the current exchange before handback") s
      else take_lease binding_id s

  unfoldable pub connect : ℕ → ConversationBinding → Call (Unit {0})
  unfolding open_page wait_for_page_ready take_lease valid_binding
  connect fuel binding = do
    check (valid_binding o.is_url binding) invalid_binding
    bound ← gets λ s. s.binding
    check (not (is_bound_elsewhere binding.binding_id bound)) wrong_binding
    bind_to binding
    context ← gets λ s. s.context
    open_unless context binding
    wait_for_page_ready o fuel
    lease_unless_draining binding.binding_id
