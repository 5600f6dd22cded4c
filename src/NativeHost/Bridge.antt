-- ===== src/NativeHost/Bridge.antt =====
-- native-host/bridge.ts: which frames of the browser the host passes on. URLs, dates and JSON are
-- parameters.
pub mod Forwards
use Prim.Native.String.{◌++◌ as str_append}
use agent_supervisor_runtime.Base.{
  ℕ, ◌+◌, String, Bool, true, false, ◌&&◌, List, [], ◌∷◌, ◌++◌, Option, none, some, str_eq,
  if◌then◌else◌,
}
use agent_supervisor_runtime.Contracts.Task.{Raw, junk, shaped, is_text}
use agent_supervisor_runtime.Runtime.Contracts.{
  RuntimeFrameType, hello, welcome, command, event, ack, error, heartbeat, BindConversationCommand,
  Payload, RuntimeFrame, FrameInput, ProtocolError, unsupported_frame, unsupported_command,
  command_invalid, invalid_identity, ProtocolResult, ok, throw, and_then, validate_hello,
  parse_runtime_frame,
}
use agent_supervisor_runtime.Runtime.Frames.{Bytes, FrameResult, push}
use agent_supervisor_runtime.Runtime.Frames as Frames

pub record Outside : Type 0 where
  pub is_datetime : String → Bool
  pub is_url : String → Bool
  pub origin : String → String
  pub pathname : String → String
  pub value_of : Bytes → Option FrameInput
  pub max_bytes : ℕ
  pub send : ℕ → Bool  -- whether that send to the runtime returns

-- The bytes not decoded yet, the frames passed on, the last one first, and whether the input has been
-- destroyed.
pub record NativeHostBridge : Type 0 where
  pub buffer : Bytes
  pub sent : List RuntimeFrame
  pub sends : ℕ
  pub destroyed : Bool

module _ (o : Outside) where
  abbrev pub names_bind : Option String → Bool
  names_bind none = false
  names_bind (some name) = str_eq name "BIND_CONVERSATION"

  abbrev pub same_identity : BindConversationCommand → Bool
  same_identity c =
      str_eq (o.origin c.conversation_url) "https://chatgpt.com"
      && str_eq (o.pathname c.conversation_url) (str_append "/c/" c.conversation_id)

  abbrev pub valid_bind : BindConversationCommand → Bool
  valid_bind c = is_text c.conversation_id && o.is_url c.conversation_url

  abbrev pub check_bind : Raw BindConversationCommand → RuntimeFrame → ProtocolResult RuntimeFrame
  check_bind junk frame = throw command_invalid
  check_bind (shaped c) frame =
      if valid_bind c
      then if same_identity c then ok frame else throw invalid_identity
      else throw command_invalid

  abbrev pub check_command : Option Payload → RuntimeFrame → ProtocolResult RuntimeFrame
  check_command none frame = throw unsupported_command
  check_command (some p) frame =
      if names_bind p.name then check_bind p.as_bind frame else throw unsupported_command

  abbrev pub check_frame : RuntimeFrameType → RuntimeFrame → ProtocolResult RuntimeFrame
  check_frame hello frame = and_then (validate_hello frame) (λ h. ok frame)
  check_frame heartbeat frame = ok frame
  check_frame command frame = check_command frame.payload frame
  check_frame _ frame = throw unsupported_frame

  unfoldable pub parse_browser_runtime_frame : FrameInput → ProtocolResult RuntimeFrame
  unfolding validate_hello parse_runtime_frame
  parse_browser_runtime_frame input =
      and_then (parse_runtime_frame o.is_datetime input) (λ frame. check_frame frame.type_of frame)

  abbrev pub destroy : NativeHostBridge → NativeHostBridge
  destroy b = record b { destroyed = true }

  -- A send that throws has been made.
  abbrev pub pass_on :
      ProtocolResult RuntimeFrame
      → (NativeHostBridge → NativeHostBridge)
      → NativeHostBridge
      → NativeHostBridge
  pass_on (throw e) more b = destroy b
  pass_on (ok frame) more b =
      let b' : NativeHostBridge = record b { sent = frame ∷ b.sent; sends = b.sends + 1 } in
      if o.send b.sends then more b' else destroy b'

  unfoldable pub forward_all : List FrameInput → NativeHostBridge → NativeHostBridge
  unfolding parse_browser_runtime_frame
  forward_all [] b = b
  forward_all (raw ∷ raws) b =
      pass_on (parse_browser_runtime_frame raw) (λ b'. forward_all raws b') b

  abbrev pub on_decoded :
      FrameResult (List FrameInput) × Bytes → NativeHostBridge → NativeHostBridge
  on_decoded (Frames.throw e, buffer) b = destroy (record b { buffer = buffer })
  on_decoded (Frames.ok raws, buffer) b = forward_all raws (record b { buffer = buffer })

  -- The listener of the input's data.
  unfoldable pub on_data : Bytes → NativeHostBridge → NativeHostBridge
  unfolding push forward_all
  on_data chunk b = on_decoded (push o.value_of o.max_bytes chunk b.buffer) b

  unfoldable pub on_chunks : List Bytes → NativeHostBridge → NativeHostBridge
  unfolding on_data
  on_chunks [] b = b
  on_chunks (c ∷ cs) b = on_chunks cs (on_data c b)
