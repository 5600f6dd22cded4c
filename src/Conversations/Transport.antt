-- ===== src/Conversations/Transport.antt =====
-- conversations/binding.ts and conversations/transport.ts: a conversation and what a transport of it
-- takes and returns. The test of a URL is a parameter.
use agent_supervisor_runtime.Base.{ℕ, String, Bool, ◌&&◌, Option}
use agent_supervisor_runtime.Contracts.Task.{is_text}

pub data PreferredTransport : Type 0 where
  chrome_extension background_web : PreferredTransport

pub record ConversationBinding : Type 0 where
  pub binding_id : String
  pub workspace_id : String
  pub conversation_id : String
  pub conversation_url : String
  pub preferred_transport : PreferredTransport
  pub created_at : ℕ
  pub retired_at : Option ℕ

-- `ConversationBindingSchema`
unfoldable pub valid_binding : (String → Bool) → ConversationBinding → Bool
valid_binding is_url b =
    is_text b.binding_id
    && (is_text b.workspace_id && (is_text b.conversation_id && is_url b.conversation_url))

pub data TransportStatus : Type 0 where
  offline standby active draining : TransportStatus

pub record TransportHealth : Type 0 where
  pub status : TransportStatus
  pub detail : Option String

pub record TransportMessage : Type 0 where
  pub message_id : String
  pub binding_id : String
  pub content : String

pub record ResponseRequest : Type 0 where
  pub binding_id : String
  pub in_reply_to : String
