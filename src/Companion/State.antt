-- ===== src/Companion/State.antt =====
-- What the companion's transport holds, what it is given, and its calls of the browser. Each call takes
-- a time of its own; `calls` counts them.
use agent_supervisor_runtime.Base.{ℕ, suc, ◌+◌, String, Bool, true, false, List, Option, none, some}
use agent_supervisor_runtime.Conversations.Lease.{TransportLease}
use agent_supervisor_runtime.Conversations.Transport.{ConversationBinding}
use agent_supervisor_runtime.Conversations.Manager.{TransportManager, ManagerError, ManagerResult}
use agent_supervisor_runtime.Conversations.Manager as Manager
use agent_supervisor_runtime.Companion.Page.{PageCapabilityReport, PageMessage, GenerationState}

pub record Companion : Type 0 where
  pub manager : TransportManager
  pub context : Bool
  pub driver : Option String  -- the conversation that it expects
  pub binding : Option ConversationBinding
  pub lease : Option TransportLease
  pub detail : Option String
  pub time : ℕ
  pub calls : ℕ
  pub submitted : List String  -- the calls of submitMessage, the last one first

-- The functions of a count are what the outside does at that call, `none` or false where it throws.
pub record CompanionOptions : Type 0 where
  pub id : String
  pub lease_ttl_ms : ℕ
  pub page_ready_timeout_ms : ℕ
  pub response_timeout_ms : ℕ
  pub poll_interval_ms : ℕ
  pub is_url : String → Bool
  pub lasts : ℕ → ℕ
  pub launch : ℕ → Bool
  pub has_page : ℕ → Bool
  pub new_page : ℕ → Bool
  pub goto : ℕ → String → Bool
  pub close : ℕ → Bool
  pub page_url : ℕ → String
  pub is_login_page : String → Bool  -- the regular expression of `assertPageReady`
  pub capabilities : ℕ → Option PageCapabilityReport
  pub submit_message : ℕ → String → Bool
  pub observe_messages : ℕ → Option (List PageMessage)
  pub detect_generation_state : ℕ → Option GenerationState
  pub trim : String → String
  pub json_fence : String → Option String  -- the group of the expression of `unwrapJsonFence`
  pub in_reply_to : String → Option String  -- of the JSON value that the text stands for

pub data CompanionError : Type 0 where
  auth_required incompatible not_active wrong_binding response_timeout : CompanionError
  invalid_binding browser_error out_of_fuel : CompanionError
  manager_error : ManagerError → CompanionError

-- `instanceof CompanionTransportError`
abbrev pub is_own : CompanionError → Bool
is_own auth_required = true
is_own incompatible = true
is_own not_active = true
is_own wrong_binding = true
is_own response_timeout = true
is_own _ = false

pub data CompanionResult {ℓ} (A : Type ℓ) : Type ℓ where
  ok : A → CompanionResult A
  throw : CompanionError → CompanionResult A

abbrev pub Call : Type 0 → Type 0
Call A = Companion → CompanionResult A × Companion

abbrev pub continue :
    {A B : Type 0} → CompanionResult A × Companion → (A → Call B) → CompanionResult B × Companion
continue (ok a, s) f = f a s
continue (throw e, s) f = (throw e, s)

infixl 5 ◌>>=◌ ◌>>◌
abbrev pub ◌>>=◌ : {A B : Type 0} → Call A → (A → Call B) → Call B
◌>>=◌ m f s = continue (m s) f

abbrev pub ◌>>◌ : {A B : Type 0} → Call A → Call B → Call B
m >> k = m >>= λ _. k

abbrev pub pure : {A : Type 0} → A → Call A
pure a s = (ok a, s)

abbrev pub raise : {A : Type 0} → CompanionError → Call A
raise e s = (throw e, s)

abbrev pub check : Bool → CompanionError → Call (Unit {0})
check true e = pure tt
check false e = raise e

abbrev pub or_raise : {A : Type 0} → Option A → CompanionError → Call A
or_raise none e = raise e
or_raise (some a) e = pure a

abbrev pub gets : {A : Type 0} → (Companion → A) → Call A
gets f s = (ok (f s), s)

abbrev pub from_manager : {A : Type 0} → ManagerResult A × TransportManager → Call A
from_manager (Manager.ok a, m) s = (ok a, record s { manager = m })
from_manager (Manager.throw e, m) s = (throw (manager_error e), record s { manager = m })

module _ (o : CompanionOptions) where
  -- One call of the outside is over.
  unfoldable pub tick : Companion → Companion
  tick s = record s { time = s.time + o.lasts s.calls; calls = suc s.calls }

  -- `delay`
  unfoldable pub delay : ℕ → Companion → Companion
  unfolding tick
  delay ms s = tick (record s { time = s.time + ms })

  -- A call of the browser that either throws or returns nothing of interest.
  unfoldable pub browser : (ℕ → Bool) → Call (Unit {0})
  unfolding tick
  browser f s = check (f s.calls) browser_error (tick s)

  unfoldable pub ask : {A : Type 0} → (ℕ → Option A) → Call A
  unfolding tick
  ask f s = or_raise (f s.calls) browser_error (tick s)
