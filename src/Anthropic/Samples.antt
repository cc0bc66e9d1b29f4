-- ===== src/Anthropic/Samples.antt =====
-- internal/ai/anthropic: a history with a call that was never answered.
use mixi.Base.{◌≡◌, refl, true, false, some, List, [], ◌∷◌}
use mixi.Base.Bytes.{codes}
use mixi.Ai.{
  AssistantMessage, Message, text_content, tool_call, tool_use, user_message, assistant_message,
}
use mixi.Anthropic.Convert.{
  WireMessage, user_block, text_block, tool_use_block, tool_result_block, user_role, assistant_role,
  convert_messages,
}
use mixi.Anthropic.Convert.Pairs.{is_paired, convert_messages-is_paired}

abbrev interrupted : AssistantMessage
interrupted = record {
  content = tool_call (codes "1") (codes "ls") [] [] ∷ [];
  api = [];
  provider = [];
  model = [];
  response_model = [];
  response_id = [];
  usage = record { input = 0; output = 0; cache_read = 0; cache_write = 0; total = 0 };
  stop_reason = tool_use;
  error_message = [];
  timestamp = 0;
}

abbrev history : List Message
history =
    assistant_message interrupted
    ∷ user_message (record { content = text_content (codes "go on") [] ∷ []; timestamp = 0 })
    ∷ []

abbrev request : List WireMessage
request =
    record {
      role = assistant_role;
      content = tool_use_block (codes "1") (codes "ls") (codes "{}") ∷ [];
    }
    ∷ record { role = user_role; content = tool_result_block (codes "1") [] false ∷ [] }
    ∷ record { role = user_role; content = user_block (text_block (codes "go on")) ∷ [] }
    ∷ []

converted : convert_messages history ≡ some request
unfolding convert_messages mixi.Anthropic.Convert.assistant_blocks mixi.Anthropic.Convert.results_of
    mixi.Anthropic.Convert.convert_user_content mixi.Anthropic.Convert.missing
    mixi.Anthropic.Convert.tool_ids mixi.Anthropic.Convert.is_answered
converted = refl

convert_messages-is_paired_example : is_paired request ≡ true
convert_messages-is_paired_example = convert_messages-is_paired history request converted
