-- ===== src/Session/EntryJson.antt =====
-- internal/session/entry_json.go: the lines of a session file as JSON, and back.
pub mod RoundTrip
pub mod Stored
use mixi.Ai.Json.Messages.{
  reason_text, reason_of, usage_fields, usage_of, user_fields, assistant_fields, tool_result_fields,
  marshal_message, user_of, assistant_of, tool_result_of, message_of, unmarshal_message,
}
use mixi.Ai.Json.{
  null, Json, Codec, ◌>>=◌, get, as_fields, as_string, as_number, as_boolean, as_array, fields,
  field_or, get_string, get_number, get_boolean, get_fields, get_raw, omit_string, omit_raw,
  omit_boolean, raw_text,
}
use mixi.Base.{ℕ, not, Option, none, some, List, [], ◌∷◌, ◌++◌, map, ltb, if◌then◌else◌}
use mixi.Base.Bytes.{Bytes, codes, bytes_eq}
use mixi.Session.Entry.{
  Header, FileLists, Entry, Body, message, model_change, thinking_level_change, active_tools_change,
  compaction, branch_summary, custom, custom_message, label, session_info, leaf,
}
use mixi.Session.FileStore.{Format}

-- Type
abbrev pub type_name : Body → Bytes
type_name (message m pinned) = codes "message"
type_name (model_change provider model) = codes "model_change"
type_name (thinking_level_change level) = codes "thinking_level_change"
type_name (active_tools_change names) = codes "active_tools_change"
type_name (compaction summary first tokens lists) = codes "compaction"
type_name (branch_summary from summary lists) = codes "branch_summary"
type_name (custom kind content) = codes "custom"
type_name (custom_message kind content display details pinned) = codes "custom_message"
type_name (label target name) = codes "label"
type_name (session_info name) = codes "session_info"
type_name (leaf target) = codes "leaf"

-- the root's parentId is null
unfoldable pub parent_text : Codec → Bytes → Bytes
parent_text c [] = c.null_text
parent_text c (b ∷ s) = c.string_text (b ∷ s)

-- wireBase
abbrev pub wire_base : Codec → Entry → Bytes → List (Bytes × Bytes) → List (Bytes × Bytes)
wire_base c e kind rest =
    (codes "type", c.string_text kind)
    ∷ (codes "id", c.string_text e.id)
    ∷ (codes "parentId", parent_text c e.parent)
    ∷ (codes "timestamp", c.string_text e.timestamp)
    ∷ rest

-- toBase
abbrev pub to_base : Codec → List (Bytes × Bytes) → Body → Option Entry
to_base c ms body = do
  id ← get_string c (codes "id") ms
  parent ← get_string c (codes "parentId") ms
  timestamp ← get_string c (codes "timestamp") ms
  some (record { id = id; parent = parent; timestamp = timestamp; body = body })

-- a []string; a nil one, which is written as null, is not told from an empty one
unfoldable pub strings_text : Codec → List Bytes → Option Bytes
strings_text c ss = c.array_text (map c.string_text ss)

unfoldable pub each_string : Codec → List Bytes → Option (List Bytes)
each_string c [] = some []
each_string c (t ∷ ts) = do s ← as_string (c.parse t); ss ← each_string c ts; some (s ∷ ss)

unfoldable pub strings_of : Codec → Option Bytes → Option (List Bytes)
strings_of c none = some []
strings_of c (some t) = do ts ← as_array (c.parse t); each_string c ts

-- FileLists
unfoldable pub lists_text : Codec → FileLists → Option Bytes
lists_text c l = do
  read ← strings_text c l.read_files
  modified ← strings_text c l.modified_files
  c.object_text ((codes "readFiles", read) ∷ (codes "modifiedFiles", modified) ∷ [])

abbrev pub lists_from : Codec → List (Bytes × Bytes) → Option FileLists
lists_from c ms = do
  read ← strings_of c (get (codes "readFiles") ms)
  modified ← strings_of c (get (codes "modifiedFiles") ms)
  some (record { read_files = read; modified_files = modified })

unfoldable pub lists_of : Codec → Option Bytes → Option FileLists
lists_of c none = some (record { read_files = []; modified_files = [] })
lists_of c (some t) = do ms ← fields c t; lists_from c ms

-- a *FileLists, for which null is nil
abbrev present_lists : Codec → Bytes → Option Json → Option (Option FileLists)
present_lists c t (some null) = some none
present_lists c t v = do l ← lists_of c (some t); some (some l)

unfoldable pub optional_lists : Codec → Option Bytes → Option (Option FileLists)
optional_lists c none = some none
optional_lists c (some t) = present_lists c t (c.parse t)

-- the wire structs, and the cases of MarshalEntry that fill them
abbrev pub marshal_body : Codec → Entry → Body → Option Bytes
marshal_body c e (message m pinned) = do
  msg ← marshal_message c m
  c.object_text (
      wire_base c e (codes "message")
        ((codes "message", msg) ∷ omit_boolean c (codes "pinned") pinned))
marshal_body c e (model_change provider model) = c.object_text (
    wire_base c e (codes "model_change")
      ((codes "provider", c.string_text provider) ∷ (codes "modelId", c.string_text model) ∷ []))
marshal_body c e (thinking_level_change level) = c.object_text (
    wire_base c e (codes "thinking_level_change")
      ((codes "thinkingLevel", c.string_text level) ∷ []))
marshal_body c e (active_tools_change names) = do
  tools ← strings_text c names
  c.object_text
      (wire_base c e (codes "active_tools_change") ((codes "activeToolNames", tools) ∷ []))
marshal_body c e (compaction summary first tokens lists) = do
  details ← lists_text c lists
  c.object_text (
      wire_base c e (codes "compaction") (
        (codes "summary", c.string_text summary)
        ∷ (codes "firstKeptEntryId", c.string_text first)
        ∷ (codes "tokensBefore", c.number_text tokens)
        ∷ (codes "details", details)
        ∷ []))
marshal_body c e (branch_summary from summary none) = c.object_text (
    wire_base c e (codes "branch_summary")
      ((codes "fromId", c.string_text from) ∷ (codes "summary", c.string_text summary) ∷ []))
marshal_body c e (branch_summary from summary (some lists)) = do
  details ← lists_text c lists
  c.object_text (
      wire_base c e (codes "branch_summary") (
        (codes "fromId", c.string_text from)
        ∷ (codes "summary", c.string_text summary)
        ∷ (codes "details", details)
        ∷ []))
marshal_body c e (custom kind content) = c.object_text (
    wire_base c e (codes "custom")
      ((codes "customType", c.string_text kind) ∷ omit_raw (codes "data") content))
marshal_body c e (custom_message kind content display details pinned) = c.object_text (
    wire_base c e (codes "custom_message") (
      (codes "customType", c.string_text kind)
        ∷ (codes "content", raw_text c content)
        ∷ (codes "display", c.boolean_text display)
        ∷ omit_raw (codes "details") details
      ++ omit_boolean c (codes "pinned") pinned))
marshal_body c e (label target name) = c.object_text (
    wire_base c e (codes "label")
      ((codes "targetId", c.string_text target) ∷ omit_string c (codes "label") name))
marshal_body c e (session_info name) =
    c.object_text (wire_base c e (codes "session_info") (omit_string c (codes "name") name))
marshal_body c e (leaf target) =
    c.object_text (wire_base c e (codes "leaf") ((codes "targetId", c.string_text target) ∷ []))

-- MarshalEntry
unfoldable pub marshal_entry : Codec → Entry → Option Bytes
marshal_entry c e = marshal_body c e e.body

-- the cases of UnmarshalEntry, for what comes after the base
abbrev pub message_body : Codec → List (Bytes × Bytes) → Option Body
message_body c ms = do
  pinned ← get_boolean c (codes "pinned") ms
  m ← unmarshal_message c (get_raw (codes "message") ms)
  some (message m pinned)

abbrev pub model_body : Codec → List (Bytes × Bytes) → Option Body
model_body c ms = do
  provider ← get_string c (codes "provider") ms
  model ← get_string c (codes "modelId") ms
  some (model_change provider model)

abbrev pub level_body : Codec → List (Bytes × Bytes) → Option Body
level_body c ms = do
  level ← get_string c (codes "thinkingLevel") ms
  some (thinking_level_change level)

abbrev pub tools_body : Codec → List (Bytes × Bytes) → Option Body
tools_body c ms = do
  names ← strings_of c (get (codes "activeToolNames") ms)
  some (active_tools_change names)

abbrev pub compaction_body : Codec → List (Bytes × Bytes) → Option Body
compaction_body c ms = do
  summary ← get_string c (codes "summary") ms
  first ← get_string c (codes "firstKeptEntryId") ms
  tokens ← get_number c (codes "tokensBefore") ms
  details ← lists_of c (get (codes "details") ms)
  some (compaction summary first tokens details)

abbrev pub branch_body : Codec → List (Bytes × Bytes) → Option Body
branch_body c ms = do
  from ← get_string c (codes "fromId") ms
  summary ← get_string c (codes "summary") ms
  details ← optional_lists c (get (codes "details") ms)
  some (branch_summary from summary details)

abbrev pub custom_body : Codec → List (Bytes × Bytes) → Option Body
custom_body c ms = do
  kind ← get_string c (codes "customType") ms
  some (custom kind (get_raw (codes "data") ms))

abbrev pub custom_message_body : Codec → List (Bytes × Bytes) → Option Body
custom_message_body c ms = do
  kind ← get_string c (codes "customType") ms
  display ← get_boolean c (codes "display") ms
  pinned ← get_boolean c (codes "pinned") ms
  some (
      custom_message kind (get_raw (codes "content") ms) display (get_raw (codes "details") ms)
        pinned)

abbrev pub label_body : Codec → List (Bytes × Bytes) → Option Body
label_body c ms = do
  target ← get_string c (codes "targetId") ms
  name ← get_string c (codes "label") ms
  some (label target name)

abbrev pub info_body : Codec → List (Bytes × Bytes) → Option Body
info_body c ms = do name ← get_string c (codes "name") ms; some (session_info name)

abbrev pub leaf_body : Codec → List (Bytes × Bytes) → Option Body
leaf_body c ms = do target ← get_string c (codes "targetId") ms; some (leaf target)

-- the `switch` of UnmarshalEntry; "session" is the type of a header
abbrev pub body_of : Codec → Bytes → List (Bytes × Bytes) → Option Body
body_of c kind ms =
    if bytes_eq kind (codes "message")
    then message_body c ms
    else if bytes_eq kind (codes "model_change")
    then model_body c ms
    else if bytes_eq kind (codes "thinking_level_change")
    then level_body c ms
    else if bytes_eq kind (codes "active_tools_change")
    then tools_body c ms
    else if bytes_eq kind (codes "compaction")
    then compaction_body c ms
    else if bytes_eq kind (codes "branch_summary")
    then branch_body c ms
    else if bytes_eq kind (codes "custom")
    then custom_body c ms
    else if bytes_eq kind (codes "custom_message")
    then custom_message_body c ms
    else if bytes_eq kind (codes "label")
    then label_body c ms
    else if bytes_eq kind (codes "session_info")
    then info_body c ms
    else if bytes_eq kind (codes "leaf")
    then leaf_body c ms
    else none

abbrev pub entry_read : Codec → List (Bytes × Bytes) → Option Entry
entry_read c ms = do
  kind ← get_string c (codes "type") ms
  body ← body_of c kind ms
  to_base c ms body

-- UnmarshalEntry
unfoldable pub unmarshal_entry : Codec → Bytes → Option Entry
unmarshal_entry c line = do ms ← fields c line; entry_read c ms

-- MarshalHeader
unfoldable pub marshal_header : Codec → Header → Option Bytes
marshal_header c h = c.object_text (
    (codes "type", c.string_text (codes "session"))
    ∷ (codes "version", c.number_text h.version)
    ∷ (codes "id", c.string_text h.id)
    ∷ (codes "timestamp", c.string_text h.timestamp)
    ∷ (codes "cwd", c.string_text h.cwd)
    ∷ (codes "parentSession", c.string_text h.parent_session)
    ∷ [])

abbrev pub header_of : Codec → List (Bytes × Bytes) → Option Header
header_of c ms = do
  version ← get_number c (codes "version") ms
  id ← get_string c (codes "id") ms
  timestamp ← get_string c (codes "timestamp") ms
  cwd ← get_string c (codes "cwd") ms
  parent ← get_string c (codes "parentSession") ms
  some (record {
    version = version;
    id = id;
    timestamp = timestamp;
    cwd = cwd;
    parent_session = parent;
  })

abbrev pub current_version : ℕ
current_version = 1

abbrev pub if_supported : Bytes → Header → Option Header
if_supported kind h =
    if not (bytes_eq kind (codes "session"))
    then none
    else if ltb current_version h.version
    then none
    else some h

abbrev pub header_read : Codec → List (Bytes × Bytes) → Option Header
header_read c ms = do kind ← get_string c (codes "type") ms; h ← header_of c ms; if_supported kind h

-- UnmarshalHeader
unfoldable pub unmarshal_header : Codec → Bytes → Option Header
unmarshal_header c line = do ms ← fields c line; header_read c ms

-- The format of a session file.
abbrev pub entry_format : Codec → Format
entry_format c = record {
  marshal_header = marshal_header c;
  marshal = marshal_entry c;
  unmarshal_header = unmarshal_header c;
  unmarshal = unmarshal_entry c;
}
