-- ===== src/Examples/Companion.antt =====
-- The companion's transport at concrete inputs.
use agent_supervisor_runtime.Base.{
  Bool, true, false, [], ◌∷◌, none, some, ◌≡◌, ◌⊎◌, refl, arith, insert, no_entries, nat_eq,
  if◌then◌else◌,
}
use agent_supervisor_runtime.Conversations.Lease.{TransportLease}
use agent_supervisor_runtime.Conversations.Lease as Lease
use agent_supervisor_runtime.Conversations.Transport.{
  ConversationBinding, background_web, valid_binding, TransportMessage, ResponseRequest, standby,
  active,
}
use agent_supervisor_runtime.Conversations.Manager.{
  acquire, make_active, renew, assert_send_authority, set_exchange_in_flight,
}
use agent_supervisor_runtime.Companion.Page.{
  PageCapabilityReport, PageMessage, assistant, idle, evaluate_page_compatibility,
}
use agent_supervisor_runtime.Companion.State.{
  Companion, CompanionOptions, ok, tick, delay, browser, ask,
}
use agent_supervisor_runtime.Companion.Ready.{
  is_bound_to, assert_page_ready, ready_loop, wait_for_page_ready,
}
use agent_supervisor_runtime.Companion.Connecting.{
  connect, open_page, take_lease, renew_lease, acquire_lease,
}
use agent_supervisor_runtime.Companion.Exchange.{
  send, send_ready, authorise, set_in_flight, submit, wait_for_response, response_loop, look, pause,
  find_correlated_assistant,
}
use agent_supervisor_runtime.Companion.Exchange.Authority.{Submits, Withheld, send-Submits}
use agent_supervisor_runtime.Companion.Exchange.Waiting.{Waited, wait_for_response-Waited}

abbrev binding : ConversationBinding
binding = record {
  binding_id = "b";
  workspace_id = "w";
  conversation_id = "c";
  conversation_url = "https://chatgpt.com/c/c";
  preferred_transport = background_web;
  created_at = 0;
  retired_at = none;
}

abbrev page : PageCapabilityReport
page = record {
  conversation_identity = true;
  composer = true;
  submit = true;
  assistant_messages = true;
  generation_lifecycle = true;
}

abbrev reply : PageMessage
reply = record { id = "1"; role = assistant; content = "PASS" }

-- The page can be loaded, or not; the reply comes at the second look.
abbrev options : Bool → CompanionOptions
options loads = record {
  id = "web";
  lease_ttl_ms = 15;
  page_ready_timeout_ms = 3;
  response_timeout_ms = 6;
  poll_interval_ms = 2;
  is_url = λ url. true;
  lasts = λ n. 0;
  launch = λ n. true;
  has_page = λ n. true;
  new_page = λ n. true;
  goto = λ n url. loads;
  close = λ n. true;
  page_url = λ n. "https://chatgpt.com/c/c";
  is_login_page = λ url. false;
  capabilities = λ n. some page;
  submit_message = λ n content. true;
  observe_messages = λ n. some (if nat_eq n 9 then reply ∷ [] else []);
  detect_generation_state = λ n. some idle;
  trim = λ text. text;
  json_fence = λ text. none;
  in_reply_to = λ text. some "m";
}

abbrev fresh : Companion
fresh = record {
  manager = record {
    registrations =
        insert "web" (record { priority = 10; status = standby; exchange_in_flight = false })
          no_entries;
    leases = no_entries;
  };
  context = false;
  driver = none;
  binding = none;
  lease = none;
  detail = none;
  time = 0;
  calls = 0;
  submitted = [];
}

abbrev message : TransportMessage
message = record { message_id = "m"; binding_id = "b"; content = "hello" }

-- Connected, with the lease of the first epoch.
abbrev connected : Companion
connected = record fresh {
  manager = record {
    registrations =
        insert "web" (record { priority = 10; status = active; exchange_in_flight = false })
          no_entries;
    leases =
        insert "b" (record { binding_id = "b"; holder = "web"; epoch = 1; expires_at = 15 })
          no_entries;
  };
  context = true;
  driver = some "c";
  binding = some binding;
  lease = some (record { binding_id = "b"; holder = "web"; epoch = 1; expires_at = 15 });
  calls = 7;
}

-- A connect that gets that far.
connects :
    ((connect (options true) 2 binding fresh).0 ≡ ok tt)
    × ((connect (options true) 2 binding fresh).1.lease ≡ connected.lease)
    × ((connect (options true) 2 binding fresh).1.driver ≡ some "c")
unfolding connect open_page wait_for_page_ready ready_loop assert_page_ready take_lease renew_lease
    acquire_lease valid_binding browser ask tick evaluate_page_compatibility acquire make_active
    Lease.acquire renew
connects = (refl, refl, refl)

send-Submits_example :
    Withheld (options true) connected (send (options true) message 1 connected)
    ⊎ ((is_bound_to "b" connected.binding ≡ true)
        × Submits
            (options true)
            message
            1
            (tick (options true) (assert_page_ready (options true) connected).1).time
            connected
            (send (options true) message 1 connected))
send-Submits_example = send-Submits (options true) message 1 connected

-- It does submit.
submits : (send (options true) message 1 connected).1.submitted ≡ "hello" ∷ []
unfolding send send_ready assert_page_ready authorise set_in_flight submit browser ask tick
    evaluate_page_compatibility assert_send_authority set_exchange_in_flight Lease.assert_authority
submits = refl

abbrev question : ResponseRequest
question = record { binding_id = "b"; in_reply_to = "m" }

wait_for_response-Waited_example :
    Waited (options true) question 8 (wait_for_response (options true) 8 question connected)
wait_for_response-Waited_example =
    wait_for_response-Waited (options true) question 0 (λ n. omega arith) 8 connected
      (record { priority = 10; status = active; exchange_in_flight = false }) (omega arith)
      (omega arith) refl refl

-- The reply is returned.
replied : (wait_for_response (options true) 8 question connected).0 ≡ ok "PASS"
unfolding wait_for_response response_loop look pause find_correlated_assistant ask delay tick
    set_in_flight set_exchange_in_flight
replied = refl
