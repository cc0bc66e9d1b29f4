-- ===== src/Ai/Json/Messages.antt =====
-- internal/ai/json.go: messages as JSON, and back.
use mixi.Base.{Option, none, some, List, [], ◌∷◌, ◌++◌, if◌then◌else◌}
use mixi.Base.Bytes.{Bytes, codes, bytes_eq}
use mixi.Ai.{
  StopReason, stop, length as cut_short, tool_use, error, aborted, unknown_reason, Usage,
  AssistantMessage, UserMessage, ToolResultMessage, Message, user_message, assistant_message,
  tool_result_message,
}
use mixi.Ai.Json.{
  ◌>>=◌, Codec, get, fields, get_string, get_number, get_boolean, get_fields, get_raw, omit_string,
  omit_raw,
}
use mixi.Ai.Json.Content.{marshal_slice, unmarshal_slice}

unfoldable pub reason_text : StopReason → Bytes
reason_text stop = codes "stop"
reason_text cut_short = codes "length"
reason_text tool_use = codes "toolUse"
reason_text error = codes "error"
reason_text aborted = codes "aborted"
reason_text (unknown_reason text) = text

unfoldable pub reason_of : Bytes → StopReason
reason_of t =
    if bytes_eq t (codes "stop")
    then stop
    else if bytes_eq t (codes "length")
    then cut_short
    else if bytes_eq t (codes "toolUse")
    then tool_use
    else if bytes_eq t (codes "error")
    then error
    else if bytes_eq t (codes "aborted")
    then aborted
    else unknown_reason t

-- The fields of Usage; its cost is left out.
unfoldable pub usage_fields : Codec → Usage → List (Bytes × Bytes)
usage_fields c u =
    (codes "input", c.number_text u.input)
    ∷ (codes "output", c.number_text u.output)
    ∷ (codes "cacheRead", c.number_text u.cache_read)
    ∷ (codes "cacheWrite", c.number_text u.cache_write)
    ∷ (codes "total", c.number_text u.total)
    ∷ []

unfoldable pub usage_of : Codec → List (Bytes × Bytes) → Option Usage
usage_of c ms = do
  input ← get_number c (codes "input") ms
  output ← get_number c (codes "output") ms
  cache_read ← get_number c (codes "cacheRead") ms
  cache_write ← get_number c (codes "cacheWrite") ms
  total ← get_number c (codes "total") ms
  some (record {
    input = input;
    output = output;
    cache_read = cache_read;
    cache_write = cache_write;
    total = total;
  })

-- the wire struct of each message, once its content and its usage are written
abbrev pub user_fields : Codec → UserMessage → Bytes → List (Bytes × Bytes)
user_fields c m content =
    (codes "role", c.string_text (codes "user"))
    ∷ (codes "content", content)
    ∷ (codes "timestamp", c.number_text m.timestamp)
    ∷ []

abbrev pub assistant_fields :
    Codec → AssistantMessage → (content usage : Bytes) → List (Bytes × Bytes)
assistant_fields c m content usage =
    (codes "role", c.string_text (codes "assistant"))
      ∷ (codes "content", content)
      ∷ (codes "api", c.string_text m.api)
      ∷ (codes "provider", c.string_text m.provider)
      ∷ (codes "model", c.string_text m.model)
      ∷ omit_string c (codes "responseModel") m.response_model
    ++ omit_string c (codes "responseId") m.response_id
    ++ (codes "usage", usage)
      ∷ (codes "stopReason", c.string_text (reason_text m.stop_reason))
      ∷ omit_string c (codes "errorMessage") m.error_message
    ++ (codes "timestamp", c.number_text m.timestamp) ∷ []

abbrev pub tool_result_fields : Codec → ToolResultMessage → Bytes → List (Bytes × Bytes)
tool_result_fields c m content =
    (codes "role", c.string_text (codes "toolResult"))
      ∷ (codes "toolCallId", c.string_text m.tool_call_id)
      ∷ (codes "toolName", c.string_text m.tool_name)
      ∷ (codes "content", content)
      ∷ omit_raw (codes "details") m.details
    ++ (codes "isError", c.boolean_text m.is_error)
      ∷ (codes "timestamp", c.number_text m.timestamp)
      ∷ []

-- MarshalMessage
unfoldable pub marshal_message : Codec → Message → Option Bytes
marshal_message c (user_message m) = do
  content ← marshal_slice c m.content
  c.object_text (user_fields c m content)
marshal_message c (assistant_message m) = do
  content ← marshal_slice c m.content
  usage ← c.object_text (usage_fields c m.usage)
  c.object_text (assistant_fields c m content usage)
marshal_message c (tool_result_message m) = do
  content ← marshal_slice c m.content
  c.object_text (tool_result_fields c m content)

-- the cases of UnmarshalMessage
abbrev pub user_of : Codec → List (Bytes × Bytes) → Option Message
user_of c ms = do
  content ← unmarshal_slice c (get (codes "content") ms)
  timestamp ← get_number c (codes "timestamp") ms
  some (user_message (record { content = content; timestamp = timestamp }))

abbrev pub assistant_of : Codec → List (Bytes × Bytes) → Option Message
assistant_of c ms = do
  content ← unmarshal_slice c (get (codes "content") ms)
  api ← get_string c (codes "api") ms
  provider ← get_string c (codes "provider") ms
  model ← get_string c (codes "model") ms
  response_model ← get_string c (codes "responseModel") ms
  response_id ← get_string c (codes "responseId") ms
  spent ← get_fields c (codes "usage") ms
  usage ← usage_of c spent
  reason ← get_string c (codes "stopReason") ms
  error_message ← get_string c (codes "errorMessage") ms
  timestamp ← get_number c (codes "timestamp") ms
  some (
      assistant_message (record {
        content = content;
        api = api;
        provider = provider;
        model = model;
        response_model = response_model;
        response_id = response_id;
        usage = usage;
        stop_reason = reason_of reason;
        error_message = error_message;
        timestamp = timestamp;
      }))

abbrev pub tool_result_of : Codec → List (Bytes × Bytes) → Option Message
tool_result_of c ms = do
  tool_call_id ← get_string c (codes "toolCallId") ms
  tool_name ← get_string c (codes "toolName") ms
  content ← unmarshal_slice c (get (codes "content") ms)
  is_error ← get_boolean c (codes "isError") ms
  timestamp ← get_number c (codes "timestamp") ms
  some (
      tool_result_message (record {
        tool_call_id = tool_call_id;
        tool_name = tool_name;
        content = content;
        details = get_raw (codes "details") ms;
        is_error = is_error;
        timestamp = timestamp;
      }))

abbrev pub message_of : Codec → Bytes → List (Bytes × Bytes) → Option Message
message_of c role ms =
    if bytes_eq role (codes "user")
    then user_of c ms
    else if bytes_eq role (codes "assistant")
    then assistant_of c ms
    else if bytes_eq role (codes "toolResult")
    then tool_result_of c ms
    else none

-- UnmarshalMessage
unfoldable pub unmarshal_message : Codec → Bytes → Option Message
unmarshal_message c t = do
  ms ← fields c t
  role ← get_string c (codes "role") ms
  message_of c role ms
