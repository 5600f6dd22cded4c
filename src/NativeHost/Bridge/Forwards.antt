-- ===== src/NativeHost/Bridge/Forwards.antt =====
-- Which frames reach the runtime.
use Prim.Native.String.{◌++◌ as str_append}
use agent_supervisor_runtime.Base.{
  List, String, [], ◌∷◌, Option, none, some, ◌≡◌, refl, sym, ap, subst, ◌∙◌, true, All, arith,
  eq_iff, Bool-cases, inl, inr,
}
use agent_supervisor_runtime.Contracts.Task.{Raw, junk, shaped}
use agent_supervisor_runtime.Runtime.Contracts.{
  RuntimeFrameType, hello, welcome, command, event, ack, error, heartbeat, BindConversationCommand,
  HelloPayload, Payload, RuntimeFrame, FrameInput, ProtocolResult, ok, throw, and_then,
  validate_hello, parse_hello, parse_runtime_frame,
}
use agent_supervisor_runtime.Runtime.Frames.{Bytes, FrameResult, push}
use agent_supervisor_runtime.Runtime.Frames as Frames
use agent_supervisor_runtime.NativeHost.Bridge.{
  Outside, NativeHostBridge, names_bind, same_identity, valid_bind, check_bind, check_command,
  check_frame, parse_browser_runtime_frame, pass_on, forward_all, on_decoded, on_data, on_chunks,
}

-- A conversation of chatgpt.com under its own id.
pub record Binds (o : Outside) (payload : Option Payload) : Type 0 where
  pub read : Payload
  pub there : payload ≡ some read
  pub named : read.name ≡ some "BIND_CONVERSATION"
  pub binding : BindConversationCommand
  pub as_bind : read.as_bind ≡ shaped binding
  pub origin : o.origin binding.conversation_url ≡ "https://chatgpt.com"
  pub path : o.pathname binding.conversation_url ≡ str_append "/c/" binding.conversation_id

-- A HELLO that says who the extension is, a heartbeat, or a command that binds a conversation.
abbrev pub Allowed : Outside → RuntimeFrameType → RuntimeFrame → Type 0
Allowed o hello f = (h : HelloPayload) × (parse_hello f.payload ≡ ok h)
Allowed o heartbeat f = Unit
Allowed o command f = Binds o f.payload
Allowed o _ f = ⊥

pub record IsAllowed (o : Outside) (f : RuntimeFrame) : Type 0 where
  pub allowed : Allowed o f.type_of f

-- A result that is only ever an allowed frame.
abbrev Gives : (RuntimeFrame → Type 0) → ProtocolResult RuntimeFrame → Type 0
Gives P (ok f) = P f
Gives P (throw e) = Unit

module _ (o : Outside) where
  named_bind : (n : Option String) → names_bind o n ≡ true → n ≡ some "BIND_CONVERSATION"
  named_bind none v = ground arith
  named_bind (some name) v = ap some (ground (arith, eq_iff name "BIND_CONVERSATION", v))

  check_bind-Gives :
      (p : Payload) (b : Raw BindConversationCommand) (f : RuntimeFrame)
      → f.payload ≡ some p
      → p.name ≡ some "BIND_CONVERSATION"
      → p.as_bind ≡ b
      → (Binds o f.payload → IsAllowed o f)
      → Gives (IsAllowed o) (check_bind o b f)
  check_bind-Gives p junk f h m e k = tt
  check_bind-Gives p (shaped c) f h m e k = elim (Bool-cases (valid_bind o c)) [
    | inr n ↦ rw n tt
    | inl v ↦ elim (Bool-cases (same_identity o c)) [
      | inr n ↦ rw (v, n) tt
      | inl w ↦
          rw (v, w)
            (k (record {
              read = p;
              there = h;
              named = m;
              binding = c;
              as_bind = e;
              origin =
                  ground (arith, eq_iff (o.origin c.conversation_url) "https://chatgpt.com", w);
              path = ground (
                arith,
                eq_iff (o.pathname c.conversation_url) (str_append "/c/" c.conversation_id),
                w,
              );
            }))
    ]
  ]

  check_command-Gives :
      (p : Option Payload) (f : RuntimeFrame)
      → f.payload ≡ p
      → (Binds o f.payload → IsAllowed o f)
      → Gives (IsAllowed o) (check_command o p f)
  check_command-Gives none f h k = tt
  check_command-Gives (some p) f h k = elim (Bool-cases (names_bind o p.name)) [
    | inr n ↦ rw n tt
    | inl v ↦ rw v (check_bind-Gives p p.as_bind f h (named_bind p.name v) refl k)
  ]

  hello-Gives :
      (f : RuntimeFrame) (x : ProtocolResult HelloPayload)
      → ((h : HelloPayload) → x ≡ ok h → IsAllowed o f)
      → Gives (IsAllowed o) (and_then x (λ h. ok f))
  hello-Gives f (ok h) k = k h refl
  hello-Gives f (throw e) k = tt

  as_allowed :
      (t : RuntimeFrameType) (f : RuntimeFrame) → f.type_of ≡ t → Allowed o t f → IsAllowed o f
  as_allowed t f e a = record { allowed = subst (λ u. Allowed o u f) (sym e) a }

  hello_of-eq : (f : RuntimeFrame) → f.type_of ≡ hello → validate_hello f ≡ parse_hello f.payload
  unfolding validate_hello
  hello_of-eq f e = rw e refl

  check_frame-Gives :
      (t : RuntimeFrameType) (f : RuntimeFrame)
      → f.type_of ≡ t
      → Gives (IsAllowed o) (check_frame o t f)
  check_frame-Gives hello f e =
      hello-Gives f (validate_hello f) (λ h p. as_allowed hello f e (h, sym (hello_of-eq f e) ∙ p))
  check_frame-Gives heartbeat f e = as_allowed heartbeat f e tt
  check_frame-Gives command f e =
      check_command-Gives f.payload f refl (λ b. as_allowed command f e b)
  check_frame-Gives welcome f e = tt
  check_frame-Gives event f e = tt
  check_frame-Gives ack f e = tt
  check_frame-Gives error f e = tt

  parsed-Gives :
      (x : ProtocolResult RuntimeFrame)
      → Gives (IsAllowed o) (and_then x (λ f. check_frame o f.type_of f))
  parsed-Gives (ok f) = check_frame-Gives f.type_of f refl
  parsed-Gives (throw e) = tt

  abbrev pub AllAllowed : NativeHostBridge → Type 0
  AllAllowed b = All (IsAllowed o) b.sent

  pass_on-AllAllowed :
      (x : ProtocolResult RuntimeFrame) (more : NativeHostBridge → NativeHostBridge)
      (b : NativeHostBridge)
      → Gives (IsAllowed o) x
      → ((b' : NativeHostBridge) → AllAllowed b' → AllAllowed (more b'))
      → AllAllowed b
      → AllAllowed (pass_on o x more b)
  pass_on-AllAllowed (throw e) more b g k h = h
  pass_on-AllAllowed (ok f) more b g k h = elim (Bool-cases (o.send b.sends)) [
    | inl v ↦ rw v (k _ (g, h))
    | inr v ↦ rw v (g, h)
  ]

  forward_all-AllAllowed :
      (raws : List FrameInput) (b : NativeHostBridge)
      → AllAllowed b
      → AllAllowed (forward_all o raws b)
  unfolding forward_all parse_browser_runtime_frame
  forward_all-AllAllowed [] b h = h
  forward_all-AllAllowed (raw ∷ raws) b h =
      pass_on-AllAllowed (parse_browser_runtime_frame o raw) (λ b'. forward_all o raws b') b
        (parsed-Gives (parse_runtime_frame o.is_datetime raw))
        (λ b' k. forward_all-AllAllowed raws b' k) h

  on_decoded-AllAllowed :
      (x : FrameResult (List FrameInput) × Bytes) (b : NativeHostBridge)
      → AllAllowed b
      → AllAllowed (on_decoded o x b)
  on_decoded-AllAllowed (Frames.throw e, buffer) b h = h
  on_decoded-AllAllowed (Frames.ok raws, buffer) b h =
      forward_all-AllAllowed raws (record b { buffer = buffer }) h

  -- Whatever bytes the browser sends, in whatever chunks, each frame that the host passes on to the
  -- runtime is a HELLO whose payload its schema admits, a heartbeat, or a command named
  -- BIND_CONVERSATION that binds a conversation of chatgpt.com whose path is that of the conversation's id.
  pub on_chunks-AllAllowed :
      (cs : List Bytes) (b : NativeHostBridge) → AllAllowed b → AllAllowed (on_chunks o cs b)
  unfolding on_chunks on_data
  on_chunks-AllAllowed [] b h = h
  on_chunks-AllAllowed (c ∷ cs) b h =
      on_chunks-AllAllowed cs (on_data o c b)
        (on_decoded-AllAllowed (push o.value_of o.max_bytes c b.buffer) b h)
