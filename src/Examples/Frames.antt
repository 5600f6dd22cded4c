-- ===== src/Examples/Frames.antt =====
-- The frame codec at concrete inputs.
use agent_supervisor_runtime.Base.{
  Bool, true, false, List, [], ◌∷◌, Option, none, some, ◌≡◌, refl, arith, nat_eq, if◌then◌else◌,
}
use agent_supervisor_runtime.Runtime.Frames.{
  Bytes, malformed_json, push, deliver, turn, drain, ok, encode, receive,
  default_max_ipc_frame_bytes, max_native_host_input_bytes,
}
use agent_supervisor_runtime.Runtime.Frames.Chunks.{concat, Delivers, push-Delivers}
use agent_supervisor_runtime.Runtime.Frames.RoundTrip.{encode_all, receive-encode_all}

-- The JSON texts `1` and `0`, as two values.
abbrev text_of : Bool → Bytes
text_of true = 49 ∷ []
text_of false = 48 ∷ []

abbrev value_of : Bytes → Option Bool
value_of (b ∷ []) = if nat_eq b 49 then some true else if nat_eq b 48 then some false else none
value_of _ = none

parses : (v : Bool) → value_of (text_of v) ≡ some v
parses true = refl
parses false = refl

abbrev stream : Bytes
stream = 1 ∷ 0 ∷ 0 ∷ 0 ∷ 49 ∷ 1 ∷ 0 ∷ 0 ∷ 0 ∷ 48 ∷ []

abbrev chunks : List Bytes
chunks = (1 ∷ 0 ∷ []) ∷ (0 ∷ 0 ∷ 49 ∷ 1 ∷ 0 ∷ []) ∷ [] ∷ (0 ∷ 0 ∷ 48 ∷ []) ∷ []

push-Delivers_example :
    Delivers value_of default_max_ipc_frame_bytes
      (push value_of default_max_ipc_frame_bytes (concat chunks) []).0
      (deliver value_of default_max_ipc_frame_bytes chunks [])
push-Delivers_example =
    push-Delivers value_of default_max_ipc_frame_bytes chunks [] (unfold turn in refl)

-- A good frame in a chunk of its own is delivered before a bad one; in one chunk it is lost.
abbrev good_then_bad : List Bytes
good_then_bad = (1 ∷ 0 ∷ 0 ∷ 0 ∷ 49 ∷ []) ∷ (1 ∷ 0 ∷ 0 ∷ 0 ∷ 7 ∷ []) ∷ []

delivered_before :
    (deliver value_of default_max_ipc_frame_bytes good_then_bad []
      ≡ (true ∷ [], some malformed_json))
    × (deliver value_of default_max_ipc_frame_bytes (concat good_then_bad ∷ []) []
        ≡ ([], some malformed_json))
unfolding deliver push drain turn
delivered_before = (refl, refl)

receive-encode_all_example :
    (receive value_of max_native_host_input_bytes chunks []).0 ≡ ok (true ∷ false ∷ [])
receive-encode_all_example =
    receive-encode_all text_of value_of default_max_ipc_frame_bytes max_native_host_input_bytes
      parses (omega arith) (omega arith) (true ∷ false ∷ []) stream chunks
      (unfold encode_all encode in refl) refl
