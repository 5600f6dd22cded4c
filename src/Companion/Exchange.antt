-- ===== src/Companion/Exchange.antt =====
-- companion/transport.ts: `send`, `waitForResponse`, `health` and `disconnect`.
pub mod Authority
pub mod Waiting
use agent_supervisor_runtime.Base.{
  ℕ, zero, suc, ◌+◌, ◌-◌, String, Bool, true, false, not, ◌&&◌, ◌||◌, List, [], ◌∷◌, Option, none,
  some, min, max, leb, ltb, nat_eq, str_eq, is_some, if◌then◌else◌,
}
use agent_supervisor_runtime.Conversations.Lease.{TransportLease, stale_lease, lease_held}
use agent_supervisor_runtime.Conversations.Transport.{
  ConversationBinding, valid_binding, TransportStatus, offline, active, draining, TransportHealth,
  TransportMessage, ResponseRequest,
}
use agent_supervisor_runtime.Conversations.Manager.{
  ManagerResult, TransportManager, lease_error, status, register, acquire, renew, release,
  set_exchange_in_flight, assert_send_authority,
}
use agent_supervisor_runtime.Conversations.Manager as Manager
use agent_supervisor_runtime.Companion.Page.{
  PageCapabilityReport, PageCompatibilityStatus, compatible, PageMessage, PageMessageRole,
  assistant, user, GenerationState, idle, evaluate_page_compatibility,
}
use agent_supervisor_runtime.Companion.State.{
  Companion, CompanionOptions, CompanionError, auth_required, incompatible, not_active,
  wrong_binding, response_timeout, invalid_binding, browser_error, out_of_fuel, manager_error,
  is_own, CompanionResult, ok, throw, Call, continue, ◌>>=◌, ◌>>◌, pure, raise, check, or_raise,
  gets, from_manager, tick, delay, browser, ask,
}
use agent_supervisor_runtime.Companion.Ready.{
  set_detail, assert_binding, require_driver, assert_page_ready, is_assistant, is_idle, is_text_of,
}

abbrev pub holds_epoch : Option TransportLease → ℕ → Bool
holds_epoch none epoch = false
holds_epoch (some l) epoch = nat_eq l.epoch epoch

abbrev pub authority : ManagerResult (Unit {0}) → Call (Unit {0})
authority (Manager.ok u) = pure tt
authority (Manager.throw e) = raise (manager_error e)

abbrev pub or_offline : Option TransportStatus → TransportStatus
or_offline none = offline
or_offline (some s) = s

module _ (o : CompanionOptions) where
  unfoldable pub set_in_flight : Bool → Call (Unit {0})
  unfolding set_exchange_in_flight
  set_in_flight value s = from_manager (set_exchange_in_flight o.id value s.manager) s

  unfoldable pub authorise : String → ℕ → Call (Unit {0})
  unfolding assert_send_authority tick
  authorise binding_id epoch s =
      authority (assert_send_authority binding_id o.id epoch (tick o s).time s.manager) (tick o s)

  abbrev pub log_submission : String → Call (Unit {0})
  log_submission content s = (ok tt, record s { submitted = content ∷ s.submitted })

  unfoldable pub submit : String → Call (Unit {0})
  unfolding browser
  submit content = do
    require_driver
    log_submission content
    browser o (λ n. o.submit_message n content)

  -- The `catch` of `send`.
  abbrev pub or_clear :
      CompanionResult (Unit {0}) × Companion → CompanionResult (Unit {0}) × Companion
  or_clear (ok u, s) = (ok tt, s)
  or_clear (throw e, s) = (set_in_flight false >> raise e) s

  abbrev pub submit_or_clear : String → Call (Unit {0})
  submit_or_clear content s = or_clear (submit content s)

  unfoldable pub send_ready : TransportMessage → ℕ → Call (Unit {0})
  unfolding authorise set_in_flight submit
  send_ready message epoch = do
    lease ← gets λ s. s.lease
    check (holds_epoch lease epoch) not_active
    authorise message.binding_id epoch
    set_in_flight true
    submit_or_clear message.content

  unfoldable pub send : TransportMessage → ℕ → Call (Unit {0})
  unfolding assert_page_ready send_ready
  send message epoch = do
    assert_binding message.binding_id
    assert_page_ready o
    send_ready message epoch

  abbrev pub or_trimmed : Option String → String → String
  or_trimmed none trimmed = trimmed
  or_trimmed (some inner) trimmed = o.trim inner

  abbrev pub unwrap_json_fence : String → String
  unwrap_json_fence content = or_trimmed (o.json_fence (o.trim content)) (o.trim content)

  abbrev pub replies : String → PageMessage → Bool
  replies in_reply_to m =
      is_assistant m.role && is_text_of (o.in_reply_to (unwrap_json_fence m.content)) in_reply_to

  unfoldable pub find_correlated_assistant : List PageMessage → String → Option String
  find_correlated_assistant [] in_reply_to = none
  find_correlated_assistant (m ∷ ms) in_reply_to =
      if replies in_reply_to m
      then some (unwrap_json_fence m.content)
      else find_correlated_assistant ms in_reply_to

  abbrev pub settled : Option String → Call (Option String)
  settled none = pure none
  settled (some reply) = do
    require_driver
    state ← ask o o.detect_generation_state
    pure (if is_idle state then some reply else none)

  -- One look at the page: the reply, once it is complete.
  unfoldable pub look : String → Call (Option String)
  unfolding ask find_correlated_assistant
  look in_reply_to = do
    require_driver
    messages ← ask o o.observe_messages
    settled (find_correlated_assistant messages in_reply_to)

  unfoldable pub pause : Companion → Companion
  unfolding delay
  pause s = if ltb 0 o.poll_interval_ms then delay o o.poll_interval_ms s else s

  abbrev pub next_look : Option String → Call String → Call String
  next_look (some reply) again s = (ok reply, s)
  next_look none again s = again (pause s)

  unfoldable pub response_loop : ℕ → ℕ → String → Call String
  unfolding look pause
  response_loop zero deadline in_reply_to s = (throw out_of_fuel, s)
  response_loop (suc fuel) deadline in_reply_to s =
      if leb s.time deadline
      then (look in_reply_to >>= λ found. next_look found (response_loop fuel deadline in_reply_to))
          s
      else (throw response_timeout, s)

  -- The `finally`: what it throws counts.
  abbrev pub finally_idle : CompanionResult String × Companion → CompanionResult String × Companion
  finally_idle (ok reply, s) = (set_in_flight false >> pure reply) s
  finally_idle (throw e, s) = (set_in_flight false >> raise e) s

  unfoldable pub wait_for_response : ℕ → ResponseRequest → Call String
  unfolding response_loop set_in_flight
  wait_for_response fuel request = assert_binding request.binding_id >> λ s.
      finally_idle (response_loop fuel (s.time + o.response_timeout_ms) request.in_reply_to s)

  abbrev pub unless_own :
      CompanionResult (Unit {0}) × Companion → CompanionResult (Unit {0}) × Companion
  unless_own (ok u, s) = (ok tt, s)
  unless_own (throw e, s) = if is_own e then (ok tt, s) else (throw e, s)

  abbrev pub report_health : Call TransportHealth
  report_health s =
      if is_text_of s.detail "AUTH_REQUIRED" || is_text_of s.detail "INCOMPATIBLE"
      then (ok (record { status = offline; detail = s.detail }), s)
      else (ok (record { status = or_offline (status o.id s.manager); detail = s.detail }), s)

  unfoldable pub health : Call TransportHealth
  unfolding assert_page_ready
  health s =
      if not s.context || not (is_some s.driver)
      then (ok (record { status = offline; detail = none }), s)
      else continue (unless_own (assert_page_ready o s)) (λ u. report_health)

  -- What `release` throws is dropped.
  abbrev pub give_up : Option TransportLease → Call (Unit {0})
  give_up none = pure tt
  give_up (some l) = set_in_flight false >> λ s. (
    ok tt,
    record (tick o (tick o s)) {
      manager =
          (release l.binding_id o.id l.epoch (tick o s).time (tick o (tick o s)).time s.manager).1;
    },
  )

  abbrev pub close_context : Bool → Call (Unit {0})
  close_context false = pure tt
  close_context true = browser o o.close

  abbrev pub forget : Call (Unit {0})
  forget s = (
    ok tt,
    record s { context = false; driver = none; binding = none; lease = none; detail = none },
  )

  unfoldable pub disconnect : Call (Unit {0})
  unfolding set_in_flight release tick browser
  disconnect = do
    lease ← gets λ s. s.lease
    give_up lease
    context ← gets λ s. s.context
    close_context context
    forget
