-- ===== src/Examples/NativeHost.antt =====
-- The native host at concrete inputs.
use agent_supervisor_runtime.Base.{
  true, false, List, [], ◌∷◌, Option, none, some, ◌≡◌, refl, arith, ltb,
}
use agent_supervisor_runtime.Contracts.Task.{junk, shaped}
use agent_supervisor_runtime.Runtime.Contracts.{
  command, Payload, RuntimeFrame, FrameInput, text, parse_runtime_frame, validate_hello,
}
use agent_supervisor_runtime.Runtime.Frames.{Bytes, push, drain, turn, take, drop}
use agent_supervisor_runtime.NativeHost.Bridge.{
  Outside, NativeHostBridge, parse_browser_runtime_frame, forward_all, on_data, on_chunks,
}
use agent_supervisor_runtime.NativeHost.Bridge.Forwards.{AllAllowed, on_chunks-AllAllowed}
use agent_supervisor_runtime.NativeHost.Connect.{
  NativeHostBridgeOptions, connect_with_auto_start, default_attempts,
}
use agent_supervisor_runtime.NativeHost.Connect.Attempts.{
  ConnectsBy, connect_with_auto_start-ConnectsBy,
}

abbrev bind : Payload
bind = record {
  as_hello = junk;
  name = some "BIND_CONVERSATION";
  as_bind = shaped (record { conversation_id = "7"; conversation_url = "https://chatgpt.com/c/7" });
}

abbrev bind_frame : RuntimeFrame
bind_frame = record {
  frame_id = "f";
  type_of = command;
  session_id = none;
  timestamp = "2026-01-01T00:00:00Z";
  payload = some bind;
}

abbrev bare_frame : RuntimeFrame
bare_frame = record bind_frame { payload = none }

-- One byte of JSON stands for the command, two for a command without a payload.
abbrev value_of : Bytes → Option FrameInput
value_of (a ∷ []) = some (record { protocol = text "ASR-NM/1"; frame = shaped bind_frame })
value_of _ = some (record { protocol = text "ASR-NM/1"; frame = shaped bare_frame })

abbrev outside : Outside
outside = record {
  is_datetime = λ s. true;
  is_url = λ s. true;
  origin = λ s. "https://chatgpt.com";
  pathname = λ s. "/c/7";
  value_of = value_of;
  max_bytes = 64;
  send = λ n. true;
}

abbrev idle : NativeHostBridge
idle = record { buffer = []; sent = []; sends = 0; destroyed = false }

abbrev chunks : List Bytes
chunks = (1 ∷ 0 ∷ 0 ∷ []) ∷ (0 ∷ 5 ∷ 2 ∷ 0 ∷ 0 ∷ 0 ∷ 5 ∷ 5 ∷ []) ∷ []

on_chunks-AllAllowed_example : AllAllowed outside (on_chunks outside chunks idle)
on_chunks-AllAllowed_example = on_chunks-AllAllowed outside chunks idle tt

-- The first is passed on, the second destroys the input.
passes_on :
    ((on_chunks outside chunks idle).sent ≡ bind_frame ∷ [])
    × ((on_chunks outside chunks idle).destroyed ≡ true)
unfolding on_chunks on_data forward_all parse_browser_runtime_frame parse_runtime_frame
    validate_hello push drain turn take drop
passes_on = (refl, refl)

-- The runtime answers once it has been started, at the third attempt.
abbrev late : NativeHostBridgeOptions
late = record { connect = λ n. ltb 1 n; has_start = true; start_runtime = true }

connect_with_auto_start-ConnectsBy_example :
    ConnectsBy 2 (connect_with_auto_start late default_attempts)
connect_with_auto_start-ConnectsBy_example =
    connect_with_auto_start-ConnectsBy late 2 refl default_attempts (omega arith) refl
