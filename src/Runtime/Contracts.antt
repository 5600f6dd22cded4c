-- ===== src/Runtime/Contracts.antt =====
-- runtime/contracts.ts: the frames between the extension and the runtime. What is read of a value of no
-- known shape is a field of it: what each schema makes of it.
use agent_supervisor_runtime.Base.{
  String, Bool, false, ◌&&◌, List, Option, none, some, str_eq, if◌then◌else◌,
}
use agent_supervisor_runtime.Contracts.Task.{Raw, junk, shaped, is_text, optional, every}

pub data RuntimeFrameType : Type 0 where
  hello welcome command event ack error heartbeat : RuntimeFrameType

pub data ClientKind : Type 0 where
  extension doctor : ClientKind

pub record HelloPayload : Type 0 where
  pub extension_instance_id : String
  pub extension_version : String
  pub capabilities : List String
  pub client_kind : ClientKind

-- The command of native-host/bridge.ts, but for its name.
pub record BindConversationCommand : Type 0 where
  pub conversation_id : String
  pub conversation_url : String

pub record Payload : Type 0 where
  pub as_hello : Raw HelloPayload
  pub name : Option String
  pub as_bind : Raw BindConversationCommand

pub record RuntimeFrame : Type 0 where
  pub frame_id : String
  pub type_of : RuntimeFrameType
  pub session_id : Option String
  pub timestamp : String
  pub payload : Option Payload

-- The `protocol` of an input: undefined, a text, or another value.
pub data Protocol : Type 0 where
  undefined other_value : Protocol
  text : String → Protocol

pub record FrameInput : Type 0 where
  pub protocol : Protocol
  pub frame : Raw RuntimeFrame

pub data ProtocolError : Type 0 where
  protocol_incompatible frame_invalid hello_invalid : ProtocolError
  unsupported_frame unsupported_command command_invalid invalid_identity : ProtocolError

pub data ProtocolResult {ℓ} (A : Type ℓ) : Type ℓ where
  ok : A → ProtocolResult A
  throw : ProtocolError → ProtocolResult A

abbrev pub and_then : {A B : Type 0} → ProtocolResult A → (A → ProtocolResult B) → ProtocolResult B
and_then (ok a) f = f a
and_then (throw e) f = throw e

-- `RuntimeProtocolVersion`
abbrev pub is_current : Protocol → Bool
is_current (text p) = str_eq p "ASR-NM/1"
is_current _ = false

-- Why an input that its schema refuses is refused.
abbrev pub refusal : Protocol → ProtocolError
refusal undefined = frame_invalid
refusal other_value = protocol_incompatible
refusal (text p) = if str_eq p "ASR-NM/1" then frame_invalid else protocol_incompatible

abbrev pub valid_hello : HelloPayload → Bool
valid_hello h =
    is_text h.extension_instance_id && (is_text h.extension_version && every is_text h.capabilities)

-- `validateHello` of a HELLO frame
abbrev pub parse_hello : Option Payload → ProtocolResult HelloPayload
parse_hello none = throw hello_invalid
parse_hello (some p) = elim p.as_hello [
  | junk ↦ throw hello_invalid
  | shaped h ↦ if valid_hello h then ok h else throw hello_invalid
]

abbrev pub hello_of : RuntimeFrameType → Option Payload → ProtocolResult HelloPayload
hello_of hello payload = parse_hello payload
hello_of _ payload = throw frame_invalid

unfoldable pub validate_hello : RuntimeFrame → ProtocolResult HelloPayload
validate_hello f = hello_of f.type_of f.payload

module _ (is_datetime : String → Bool) where
  abbrev pub valid_frame : RuntimeFrame → Bool
  valid_frame f = is_text f.frame_id && (optional is_text f.session_id && is_datetime f.timestamp)

  abbrev pub frame_of : Protocol → Raw RuntimeFrame → ProtocolResult RuntimeFrame
  frame_of p junk = throw (refusal p)
  frame_of p (shaped f) = if is_current p && valid_frame f then ok f else throw (refusal p)

  unfoldable pub parse_runtime_frame : FrameInput → ProtocolResult RuntimeFrame
  parse_runtime_frame input = frame_of input.protocol input.frame
