-- ===== src/Companion/Ready.antt =====
-- companion/transport.ts: the constructor and what waits for the page.
use agent_supervisor_runtime.Base.{
  ℕ, zero, suc, ◌+◌, ◌-◌, String, Bool, true, false, not, ◌&&◌, ◌||◌, Option, none, some, min, max,
  leb, nat_eq, str_eq, if◌then◌else◌,
}
use agent_supervisor_runtime.Conversations.Lease.{TransportLease}
use agent_supervisor_runtime.Conversations.Transport.{
  ConversationBinding, TransportStatus, active, draining,
}
use agent_supervisor_runtime.Conversations.Manager.{ManagerResult, TransportManager, register}
use agent_supervisor_runtime.Companion.Page.{
  PageCompatibilityStatus, compatible, PageMessageRole, assistant, user, GenerationState, idle,
  evaluate_page_compatibility,
}
use agent_supervisor_runtime.Companion.State.{
  Companion, CompanionOptions, CompanionError, auth_required, incompatible, not_active,
  wrong_binding, out_of_fuel, is_own, CompanionResult, ok, throw, Call, ◌>>=◌, check, or_raise,
  tick, delay, ask,
}

abbrev pub set_detail : Option String → Call (Unit {0})
set_detail d s = (ok tt, record s { detail = d })

abbrev pub set_lease : Option TransportLease → Call (Unit {0})
set_lease l s = (ok tt, record s { lease = l })

-- `#binding` is there and has this id.
abbrev pub is_bound_to : String → Option ConversationBinding → Bool
is_bound_to id none = false
is_bound_to id (some b) = str_eq b.binding_id id

abbrev pub is_bound_elsewhere : String → Option ConversationBinding → Bool
is_bound_elsewhere id none = false
is_bound_elsewhere id (some b) = not (str_eq b.binding_id id)

abbrev pub assert_binding : String → Call (Unit {0})
assert_binding id s = check (is_bound_to id s.binding) wrong_binding s

abbrev pub require_driver : Call String
require_driver s = or_raise s.driver not_active s

abbrev pub is_compatible : PageCompatibilityStatus → Bool
is_compatible compatible = true
is_compatible _ = false

abbrev pub is_assistant : PageMessageRole → Bool
is_assistant assistant = true
is_assistant user = false

abbrev pub is_idle : GenerationState → Bool
is_idle idle = true
is_idle _ = false

abbrev pub is_text_of : Option String → String → Bool
is_text_of none t = false
is_text_of (some s) t = str_eq s t

abbrev pub is_auth : CompanionError → Bool
is_auth auth_required = true
is_auth _ = false

abbrev pub detail_of : CompanionError → Option String
detail_of auth_required = some "AUTH_REQUIRED"
detail_of _ = some "INCOMPATIBLE"

abbrev pub has_status : TransportStatus → Option TransportStatus → Bool
has_status draining (some draining) = true
has_status active (some active) = true
has_status _ _ = false

module _ (o : CompanionOptions) where
  -- The constructor's registration.
  unfoldable pub construct :
      Option ℕ → TransportManager → ManagerResult (Unit {0}) × TransportManager
  unfolding register
  construct none m = register o.id (some 10) m
  construct (some priority) m = register o.id (some priority) m

  abbrev pub page_error : Bool → String → CompanionError
  page_error composer url =
      if o.is_login_page url || (str_eq url "https://chatgpt.com/" && not composer)
      then auth_required
      else incompatible

  abbrev pub refuse_page : Bool → Call (Unit {0})
  refuse_page composer s =
      let why = page_error composer (o.page_url s.calls) in
      (throw why, record (tick o s) { detail = detail_of why })

  -- `assertPageReady`
  unfoldable pub assert_page_ready : Call (Unit {0})
  unfolding ask tick evaluate_page_compatibility
  assert_page_ready = do
    expected ← require_driver
    report ← ask o o.capabilities
    if is_compatible (evaluate_page_compatibility report).status
        then set_detail none
        else refuse_page report.composer

  abbrev pub poll_delay : ℕ → Companion → ℕ
  poll_delay deadline s =
      min (if nat_eq o.poll_interval_ms 0 then 50 else o.poll_interval_ms)
        (max 1 (deadline - s.time))

  -- After a turn of `waitForPageReady`.
  abbrev pub retry_ready :
      CompanionResult (Unit {0}) × Companion
      → ℕ
      → (CompanionError → Call (Unit {0}))
      → CompanionResult (Unit {0}) × Companion
  retry_ready (ok u, s) deadline again = (ok tt, s)
  retry_ready (throw e, s) deadline again =
      if not (is_own e) || is_auth e
      then (throw e, s)
      else again e (delay o (poll_delay deadline s) s)

  unfoldable pub ready_loop : ℕ → ℕ → CompanionError → Call (Unit {0})
  unfolding assert_page_ready delay tick
  ready_loop zero deadline last s = (throw out_of_fuel, s)
  ready_loop (suc fuel) deadline last s =
      if leb s.time deadline
      then retry_ready (assert_page_ready s) deadline (λ e. ready_loop fuel deadline e)
      else (throw last, s)

  unfoldable pub wait_for_page_ready : ℕ → Call (Unit {0})
  unfolding ready_loop
  wait_for_page_ready fuel s = ready_loop fuel (s.time + o.page_ready_timeout_ms) incompatible s
