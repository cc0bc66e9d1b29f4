-- ===== src/Anthropic/Convert.antt =====
-- internal/ai/anthropic/convert.go: a history as the messages of a request. An error is `none`; the
-- cache marks, which request.go sets, are left out.
pub mod Pairs
use mixi.Base.{Bool, true, false, ◌||◌, Option, none, some, List, [], ◌∷◌, ◌++◌, map, if◌then◌else◌}
use mixi.Base.Bytes.{Bytes, codes, bytes_eq}
use mixi.Ai.{
  Content, Message, ToolResultMessage, text_content, image_content, thinking_content, tool_call,
  user_message, assistant_message, tool_result_message,
}

-- The blocks that user content and tool results hold
pub data UserBlock : Type 0 where
  text_block : (text : Bytes) → UserBlock
  image_block : (media_type encoded : Bytes) → UserBlock

pub data WireBlock : Type 0 where
  user_block : UserBlock → WireBlock
  thinking_block : (thinking signature : Bytes) → WireBlock
  redacted_thinking_block : (encoded : Bytes) → WireBlock
  tool_use_block : (id name input : Bytes) → WireBlock
  tool_result_block :
      (tool_use_id : Bytes) → (content : List UserBlock) → (is_error : Bool) → WireBlock

pub data WireRole : Type 0 where
  user_role assistant_role : WireRole

pub record WireMessage : Type 0 where
  pub role : WireRole
  pub content : List WireBlock

-- A text block, unless it would be empty
abbrev pub text_if : Bytes → List UserBlock
text_if [] = []
text_if (b ∷ s) = text_block (b ∷ s) ∷ []

abbrev pub user_blocks : Content → Option (List UserBlock)
user_blocks (text_content text sig) = some (text_if text)
user_blocks (image_content encoded mime) = some (image_block mime encoded ∷ [])
user_blocks (thinking_content thinking sig redacted) = none
user_blocks (tool_call id name args sig) = none

abbrev pub both : Option (List UserBlock) → Option (List UserBlock) → Option (List UserBlock)
both none o = none
both (some xs) none = none
both (some xs) (some ys) = some (xs ++ ys)

unfoldable pub convert_user_content : List Content → Option (List UserBlock)
convert_user_content [] = some []
convert_user_content (c ∷ cs) = both (user_blocks c) (convert_user_content cs)

-- Thinking without a signature cannot be replayed as thinking.
abbrev pub thinking_if : Bytes → Bytes → List WireBlock
thinking_if thinking [] = map user_block (text_if thinking)
thinking_if thinking (b ∷ sig) = thinking_block thinking (b ∷ sig) ∷ []

abbrev pub input_of : Bytes → Bytes
input_of [] = codes "{}"
input_of (b ∷ s) = b ∷ s

abbrev pub blocks_of : Content → List WireBlock
blocks_of (text_content text sig) = map user_block (text_if text)
blocks_of (image_content encoded mime) = []
blocks_of (thinking_content thinking sig true) = redacted_thinking_block sig ∷ []
blocks_of (thinking_content thinking sig false) = thinking_if thinking sig
blocks_of (tool_call id name args sig) = tool_use_block id name (input_of args) ∷ []

abbrev pub ids_of : Content → List Bytes
ids_of (text_content text sig) = []
ids_of (image_content encoded mime) = []
ids_of (thinking_content thinking sig redacted) = []
ids_of (tool_call id name args sig) = id ∷ []

-- The two results of convertAssistantContent
unfoldable pub assistant_blocks : List Content → List WireBlock
assistant_blocks [] = []
assistant_blocks (c ∷ cs) = blocks_of c ++ assistant_blocks cs

unfoldable pub tool_ids : List Content → List Bytes
tool_ids [] = []
tool_ids (c ∷ cs) = ids_of c ++ tool_ids cs

abbrev pub as_result : ToolResultMessage → Option (List UserBlock) → Option WireBlock
as_result m none = none
as_result m (some inner) = some (tool_result_block m.tool_call_id inner m.is_error)

unfoldable pub convert_tool_result : ToolResultMessage → Option WireBlock
convert_tool_result m = as_result m (convert_user_content m.content)

abbrev pub and_result : Option WireBlock → Option (List WireBlock) → Option (List WireBlock)
and_result none o = none
and_result (some b) none = none
and_result (some b) (some bs) = some (b ∷ bs)

-- The tool results at the head of the history, which answer the assistant's message before it
unfoldable pub results_of : List Message → Option (List WireBlock)
results_of [] = some []
results_of (user_message m ∷ ms) = some []
results_of (assistant_message m ∷ ms) = some []
results_of (tool_result_message m ∷ ms) = and_result (convert_tool_result m) (results_of ms)

-- answered[id]
unfoldable pub is_answered : Bytes → List WireBlock → Bool
is_answered id [] = false
is_answered id (tool_result_block x content err ∷ bs) = bytes_eq x id || is_answered id bs
is_answered id (b ∷ bs) = is_answered id bs

unfoldable pub missing : List Bytes → List WireBlock → List WireBlock
missing [] results = []
missing (id ∷ ids) results =
    let rest = missing ids results in
    if is_answered id results then rest else tool_result_block id [] false ∷ rest

-- A message with these blocks, if there are any, before the others
abbrev pub turn : WireRole → List WireBlock → Option (List WireMessage) → Option (List WireMessage)
turn role blocks none = none
turn role [] (some out) = some out
turn role (b ∷ bs) (some out) = some (record { role = role; content = b ∷ bs } ∷ out)

abbrev pub user_turn :
    Option (List UserBlock) → Option (List WireMessage) → Option (List WireMessage)
user_turn none out = none
user_turn (some blocks) out = turn user_role (map user_block blocks) out

-- The results that came, and an empty one for each call without one
abbrev pub answer_turn :
    List Bytes → Option (List WireBlock) → Option (List WireMessage) → Option (List WireMessage)
answer_turn ids none out = none
answer_turn ids (some results) out = turn user_role (results ++ missing ids results) out

abbrev pub assistant_turn :
    List WireBlock
    → List Bytes
    → Option (List WireBlock)
    → Option (List WireMessage)
    → Option (List WireMessage)
assistant_turn [] ids results out = out
assistant_turn (b ∷ bs) ids results out = turn assistant_role (b ∷ bs) (answer_turn ids results out)

-- The results that an assistant's message consumes are passed over when the walk comes to them, as
-- are those that follow no assistant's message.
unfoldable pub convert_messages : List Message → Option (List WireMessage)
convert_messages [] = some []
convert_messages (user_message m ∷ ms) =
    user_turn (convert_user_content m.content) (convert_messages ms)
convert_messages (assistant_message m ∷ ms) =
    assistant_turn (assistant_blocks m.content) (tool_ids m.content) (results_of ms)
      (convert_messages ms)
convert_messages (tool_result_message m ∷ ms) = convert_messages ms
