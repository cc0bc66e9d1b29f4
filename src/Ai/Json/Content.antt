-- ===== src/Ai/Json/Content.antt =====
-- internal/ai/json.go: the parts of a message's content as JSON, and back.
use mixi.Base.{Option, none, some, List, [], ◌∷◌, ◌++◌, if◌then◌else◌}
use mixi.Base.Bytes.{Bytes, codes, bytes_eq}
use mixi.Ai.{Content, text_content, image_content, thinking_content, tool_call}
use mixi.Ai.Json.{
  ◌>>=◌, Codec, as_array, fields, get_string, get_boolean, get_raw, omit_string, omit_boolean,
  raw_text,
}

-- MarshalContent
unfoldable pub marshal_content : Codec → Content → Option Bytes
marshal_content c (text_content text sig) = c.object_text (
    (codes "type", c.string_text (codes "text"))
    ∷ (codes "text", c.string_text text)
    ∷ omit_string c (codes "textSignature") sig)
marshal_content c (image_content encoded mime) = c.object_text (
    (codes "type", c.string_text (codes "image"))
    ∷ (codes "data", c.string_text encoded)
    ∷ (codes "mimeType", c.string_text mime)
    ∷ [])
marshal_content c (thinking_content thinking sig redacted) = c.object_text (
    (codes "type", c.string_text (codes "thinking"))
      ∷ (codes "thinking", c.string_text thinking)
      ∷ omit_string c (codes "signature") sig
    ++ omit_boolean c (codes "redacted") redacted)
marshal_content c (tool_call id name args sig) = c.object_text (
    (codes "type", c.string_text (codes "toolCall"))
    ∷ (codes "id", c.string_text id)
    ∷ (codes "name", c.string_text name)
    ∷ (codes "args", raw_text c args)
    ∷ omit_string c (codes "thoughtSignature") sig)

-- the cases of UnmarshalContent
abbrev pub text_of : Codec → List (Bytes × Bytes) → Option Content
text_of c ms = do
  text ← get_string c (codes "text") ms
  sig ← get_string c (codes "textSignature") ms
  some (text_content text sig)

abbrev pub image_of : Codec → List (Bytes × Bytes) → Option Content
image_of c ms = do
  encoded ← get_string c (codes "data") ms
  mime ← get_string c (codes "mimeType") ms
  some (image_content encoded mime)

abbrev pub thinking_of : Codec → List (Bytes × Bytes) → Option Content
thinking_of c ms = do
  thinking ← get_string c (codes "thinking") ms
  sig ← get_string c (codes "signature") ms
  redacted ← get_boolean c (codes "redacted") ms
  some (thinking_content thinking sig redacted)

abbrev pub call_of : Codec → List (Bytes × Bytes) → Option Content
call_of c ms = do
  id ← get_string c (codes "id") ms
  name ← get_string c (codes "name") ms
  sig ← get_string c (codes "thoughtSignature") ms
  some (tool_call id name (get_raw (codes "args") ms) sig)

abbrev pub content_of : Codec → Bytes → List (Bytes × Bytes) → Option Content
content_of c kind ms =
    if bytes_eq kind (codes "text")
    then text_of c ms
    else if bytes_eq kind (codes "image")
    then image_of c ms
    else if bytes_eq kind (codes "thinking")
    then thinking_of c ms
    else if bytes_eq kind (codes "toolCall")
    then call_of c ms
    else none

-- UnmarshalContent
unfoldable pub unmarshal_content : Codec → Bytes → Option Content
unmarshal_content c t = do
  ms ← fields c t
  kind ← get_string c (codes "type") ms
  content_of c kind ms

unfoldable pub marshal_each : Codec → List Content → Option (List Bytes)
marshal_each c [] = some []
marshal_each c (x ∷ xs) = do t ← marshal_content c x; ts ← marshal_each c xs; some (t ∷ ts)

unfoldable pub unmarshal_each : Codec → List Bytes → Option (List Content)
unmarshal_each c [] = some []
unmarshal_each c (t ∷ ts) = do x ← unmarshal_content c t; xs ← unmarshal_each c ts; some (x ∷ xs)

-- contentSlice
unfoldable pub marshal_slice : Codec → List Content → Option Bytes
marshal_slice c xs = do ts ← marshal_each c xs; c.array_text ts

unfoldable pub unmarshal_slice : Codec → Option Bytes → Option (List Content)
unmarshal_slice c none = some []
unmarshal_slice c (some t) = do ts ← as_array (c.parse t); unmarshal_each c ts
