-- ===== src/Compact/Serialize.antt =====
-- internal/compact/serialize.go: a window of session entries as plain text for the summarizer.
use mixi.Base.{ℕ, ◌-◌, max, List, [], ◌∷◌, ◌++◌, leb, ◌==◌, if◌then◌else◌, length, take}
use mixi.Base.Bytes.{Bytes, codes, decimal}
use mixi.Ai.{
  Content, Message, text_content, image_content, thinking_content, tool_call, user_message,
  assistant_message, tool_result_message,
}
use mixi.Session.Entry.{Entry, message, custom_message, branch_summary}

abbrev tool_result_max_chars : ℕ
tool_result_max_chars = 2000

-- strings.Join, for a separator of any length
unfoldable pub join_with : Bytes → List Bytes → Bytes
join_with sep [] = []
join_with sep (p ∷ []) = p
join_with sep (p ∷ q ∷ ps) = p ++ sep ++ join_with sep (q ∷ ps)

-- What one block adds to the parts
abbrev text_parts : Content → List Bytes
text_parts (text_content text sig) = text ∷ []
text_parts (image_content encoded mime) = codes "[image]" ∷ []
text_parts (thinking_content thinking sig redacted) = []
text_parts (tool_call id name args sig) = []

abbrev thinking_parts : Content → List Bytes
thinking_parts (text_content text sig) = []
thinking_parts (image_content encoded mime) = []
thinking_parts (thinking_content thinking sig redacted) = thinking ∷ []
thinking_parts (tool_call id name args sig) = []

abbrev call_parts : Content → List Bytes
call_parts (text_content text sig) = []
call_parts (image_content encoded mime) = []
call_parts (thinking_content thinking sig redacted) = []
call_parts (tool_call id name args sig) = (name ++ codes "(" ++ args ++ codes ")") ∷ []

unfoldable pub parts_of : (Content → List Bytes) → List Content → List Bytes
parts_of part [] = []
parts_of part (c ∷ cs) = part c ++ parts_of part cs

unfoldable pub text_of : List Content → Bytes
text_of cs = join_with (codes "\n") (parts_of text_parts cs)

unfoldable pub thinking_of : List Content → Bytes
thinking_of cs = join_with (codes "\n") (parts_of thinking_parts cs)

unfoldable pub tool_calls_of : List Content → Bytes
tool_calls_of cs = join_with (codes "; ") (parts_of call_parts cs)

unfoldable pub clip : Bytes → ℕ → Bytes
clip s max =
    if leb (length s) max
    then s
    else take max s
      ++ codes " [... "
      ++ decimal (length s - max)
      ++ codes " more characters truncated]"

abbrev spaced : Bytes → Bytes
spaced [] = []
spaced (b ∷ s) = 32 ∷ b ∷ s

unfoldable pub write_block : Bytes → Bytes → Bytes
write_block label body = label ++ spaced body ++ codes "\n\n"

-- A block, unless it would be empty
abbrev block_if : Bytes → Bytes → Bytes
block_if label [] = []
block_if label (b ∷ s) = write_block label (b ∷ s)

unfoldable pub serialize_message : Message → Bytes
serialize_message (user_message m) = write_block (codes "[User]:") (text_of m.content)
serialize_message (assistant_message m) =
    block_if (codes "[Assistant thinking]:") (thinking_of m.content)
    ++ block_if (codes "[Assistant]:") (text_of m.content)
    ++ block_if (codes "[Assistant tool calls]:") (tool_calls_of m.content)
serialize_message (tool_result_message m) =
    write_block (codes "[Tool result]:") (clip (text_of m.content) tool_result_max_chars)

abbrev serialize_entry : Entry → Bytes
serialize_entry e = elim e.body [
  | message m pinned ↦ serialize_message m
  | custom_message t content display details pinned ↦ write_block (codes "[User]:") content
  | branch_summary from summary details ↦ write_block (codes "[Branch summary]:") summary
  | _ ↦ []
]

unfoldable pub serialize_all : List Entry → Bytes
serialize_all [] = []
serialize_all (e ∷ es) = serialize_entry e ++ serialize_all es

-- strings.TrimRight(s, "\n")
abbrev trimmed : ℕ → Bytes → Bytes
trimmed b [] = if b == 10 then [] else b ∷ []
trimmed b (c ∷ s) = b ∷ c ∷ s

unfoldable pub trim_right : Bytes → Bytes
trim_right [] = []
trim_right (b ∷ s) = trimmed b (trim_right s)

unfoldable pub serialize_entries : List Entry → Bytes
serialize_entries es = trim_right (serialize_all es)
