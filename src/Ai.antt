-- ===== src/Ai.antt =====
-- internal/ai/types.go: the message types that the providers share. Costs are floats that no
-- modelled code reads, and are left out.
pub mod Sse
pub mod Json
mod Samples
use mixi.Base.{ℕ, List, Bool}
use mixi.Base.Bytes.{Bytes}

pub data Content : Type 0 where
  text_content : (text text_signature : Bytes) → Content
  image_content : (encoded mime_type : Bytes) → Content
  thinking_content : (thinking signature : Bytes) → (redacted : Bool) → Content
  tool_call : (id name args thought_signature : Bytes) → Content

pub data Role : Type 0 where
  user assistant tool_result : Role

pub data StopReason : Type 0 where
  stop length tool_use error aborted : StopReason
  unknown_reason : (text : Bytes) → StopReason

pub record Usage : Type 0 where
  pub input : ℕ
  pub output : ℕ
  pub cache_read : ℕ
  pub cache_write : ℕ
  pub total : ℕ

pub record AssistantMessage : Type 0 where
  pub content : List Content
  pub api : Bytes
  pub provider : Bytes
  pub model : Bytes
  pub response_model : Bytes
  pub response_id : Bytes
  pub usage : Usage
  pub stop_reason : StopReason
  pub error_message : Bytes
  pub timestamp : ℕ

pub record UserMessage : Type 0 where
  pub content : List Content
  pub timestamp : ℕ

pub record ToolResultMessage : Type 0 where
  pub tool_call_id : Bytes
  pub tool_name : Bytes
  pub content : List Content
  pub details : Bytes
  pub is_error : Bool
  pub timestamp : ℕ

pub data Message : Type 0 where
  user_message : UserMessage → Message
  assistant_message : AssistantMessage → Message
  tool_result_message : ToolResultMessage → Message

abbrev pub msg_role : Message → Role
msg_role (user_message m) = user
msg_role (assistant_message m) = assistant
msg_role (tool_result_message m) = tool_result
