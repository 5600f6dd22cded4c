-- ===== src/Runtime/Frames.antt =====
-- runtime/ipc.ts and native-host/framing.ts: the two channels share one codec, of a length in four
-- bytes, the low one first, and that many bytes of JSON. `text_of` stands for JSON.stringify coded in
-- UTF-8 and `value_of` for the way back, `none` where the text does not parse.
pub mod Chunks
pub mod RoundTrip
use agent_supervisor_runtime.Base.{
  ℕ, zero, suc, ◌+◌, ◌*◌, ◌/◌, ◌%◌, Bool, List, [], ◌∷◌, ◌++◌, Option, none, some, length, ltb,
  if◌then◌else◌,
}

abbrev pub Bytes : Type 0
Bytes = List ℕ

pub data FrameError : Type 0 where
  frame_too_large : ℕ → FrameError
  malformed_json : FrameError

pub data FrameResult {ℓ} (A : Type ℓ) : Type ℓ where
  ok : A → FrameResult A
  throw : FrameError → FrameResult A

abbrev pub default_max_ipc_frame_bytes : ℕ
default_max_ipc_frame_bytes = 1048576

abbrev pub max_native_host_input_bytes : ℕ
max_native_host_input_bytes = 67108864

-- `writeUInt32LE`
abbrev pub header : ℕ → Bytes
header n = n % 256 ∷ n / 256 % 256 ∷ n / 65536 % 256 ∷ n / 16777216 % 256 ∷ []

-- `readUInt32LE` of the first four bytes
abbrev pub length_of : ℕ → ℕ → ℕ → ℕ → ℕ
length_of a b c d = a + b * 256 + c * 65536 + d * 16777216

unfoldable pub take : ℕ → Bytes → Bytes
take zero bs = []
take (suc n) [] = []
take (suc n) (b ∷ bs) = b ∷ take n bs

unfoldable pub drop : ℕ → Bytes → Bytes
drop zero bs = bs
drop (suc n) [] = []
drop (suc n) (b ∷ bs) = drop n bs

module _ {ℓ} {A : Type ℓ} (text_of : A → Bytes) (max_bytes : ℕ) where
  unfoldable pub encode : A → FrameResult Bytes
  encode value =
      let payload = text_of value in
      if ltb max_bytes (length payload)
      then throw (frame_too_large (length payload))
      else ok (header (length payload) ++ payload)

-- What one turn of the decoder's loop finds at the head of the buffer: too few bytes, an error with
-- the buffer that it leaves, or a value with the bytes after it.
pub data Turn {ℓ} (A : Type ℓ) : Type ℓ where
  wait : Turn A
  fail : FrameError → Bytes → Turn A
  frame : A → Bytes → Turn A

abbrev pub or_malformed {ℓ} : {A : Type ℓ} → Option A → Bytes → Turn A
or_malformed none rest = fail malformed_json rest
or_malformed (some value) rest = frame value rest

abbrev pub with_value {ℓ} :
    {A : Type ℓ} → A → FrameResult (List A) × Bytes → FrameResult (List A) × Bytes
with_value value (throw e, buffer) = (throw e, buffer)
with_value value (ok values, buffer) = (ok (value ∷ values), buffer)

abbrev pub on_turn {ℓ} :
    {A : Type ℓ}
    → Turn A
    → Bytes
    → (Bytes → FrameResult (List A) × Bytes)
    → FrameResult (List A) × Bytes
on_turn wait buffer more = (ok [], buffer)
on_turn (fail e rest) buffer more = (throw e, rest)
on_turn (frame value rest) buffer more = with_value value (more rest)

module _ {ℓ} {A : Type ℓ} (value_of : Bytes → Option A) (max_bytes : ℕ) where
  -- Past the header, `all` being the buffer with it.
  abbrev pub turn_of : ℕ → Bytes → Bytes → Turn A
  turn_of n rest all =
      if ltb max_bytes n
      then fail (frame_too_large n) all
      else if ltb (length rest) n
      then wait
      else or_malformed (value_of (take n rest)) (drop n rest)

  unfoldable pub turn : Bytes → Turn A
  unfolding take drop
  turn (a ∷ b ∷ c ∷ d ∷ rest) = turn_of (length_of a b c d) rest (a ∷ b ∷ c ∷ d ∷ rest)
  turn _ = wait

  -- The loop, on fuel: each turn that goes on takes four bytes at least. What was read before an
  -- error is lost with the array that held it.
  unfoldable pub drain : ℕ → Bytes → FrameResult (List A) × Bytes
  unfolding turn
  drain zero buffer = (ok [], buffer)
  drain (suc fuel) buffer = on_turn (turn buffer) buffer (λ rest. drain fuel rest)

  unfoldable pub push : Bytes → Bytes → FrameResult (List A) × Bytes
  unfolding drain
  push chunk buffer = drain (suc (length (buffer ++ chunk))) (buffer ++ chunk)

abbrev pub before_values {ℓ} :
    {A : Type ℓ} → List A → FrameResult (List A) × Bytes → FrameResult (List A) × Bytes
before_values values (throw e, buffer) = (throw e, buffer)
before_values values (ok more, buffer) = (ok (values ++ more), buffer)

-- What follows the values of a push, unless it threw.
abbrev pub and_then {ℓ} :
    {A : Type ℓ}
    → FrameResult (List A) × Bytes
    → (Bytes → FrameResult (List A) × Bytes)
    → FrameResult (List A) × Bytes
and_then (throw e, buffer) more = (throw e, buffer)
and_then (ok values, buffer) more = before_values values (more buffer)

module _ {ℓ} {A : Type ℓ} (value_of : Bytes → Option A) (max_bytes : ℕ) where
  -- What a decoder returns for chunks that arrive one after another, all in one list; at an error of
  -- one push only the error is kept, not the values that the pushes before it returned.
  unfoldable pub receive : List Bytes → Bytes → FrameResult (List A) × Bytes
  receive [] buffer = (ok [], buffer)
  receive (chunk ∷ chunks) buffer =
      and_then (push value_of max_bytes chunk buffer) (λ rest. receive chunks rest)

-- What the owner of a decoder has got when the stream ends or an error does: the values of the pushes
-- before it, and the error.
abbrev pub after {ℓ} :
    {A : Type ℓ}
    → FrameResult (List A) × Bytes
    → (Bytes → List A × Option FrameError)
    → List A × Option FrameError
after (throw e, buffer) more = ([], some e)
after (ok values, buffer) more = (values ++ (more buffer).0, (more buffer).1)

module _ {ℓ} {A : Type ℓ} (value_of : Bytes → Option A) (max_bytes : ℕ) where
  unfoldable pub deliver : List Bytes → Bytes → List A × Option FrameError
  deliver [] buffer = ([], none)
  deliver (chunk ∷ chunks) buffer =
      after (push value_of max_bytes chunk buffer) (λ rest. deliver chunks rest)
