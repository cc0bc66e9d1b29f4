-- ===== src/Compact/Tokens.antt =====
-- internal/compact/tokens.go: the estimates of how many tokens a message, a conversation and a
-- session path cost.
use mixi.Base.{ℕ, ◌+◌, ◌/◌, List, [], ◌∷◌, reverse, ◌==◌, if◌then◌else◌, length}
use mixi.Ai.{
  Content, Message, text_content, image_content, thinking_content, tool_call, user_message,
  assistant_message, tool_result_message,
}
use mixi.Agent.Messages.{
  AgentMessage, model_message, bash_execution, compaction_summary, branch_summary, custom_message,
}
use mixi.Session.Entry as Session

abbrev pub default_reserve_tokens : ℕ
default_reserve_tokens = 16384

abbrev pub default_keep_recent_tokens : ℕ
default_keep_recent_tokens = 20000

-- ceil(chars / 4)
unfoldable pub estimate_chars : ℕ → ℕ
estimate_chars n = (n + 3) / 4

abbrev pub content_len : Content → ℕ
content_len (text_content text sig) = length text
content_len (thinking_content thinking sig redacted) = length thinking
content_len (tool_call id name args sig) = length name + length args
content_len (image_content encoded mime) = length encoded

unfoldable pub content_chars : List Content → ℕ
content_chars [] = 0
content_chars (c ∷ cs) = content_len c + content_chars cs

unfoldable pub estimate_message : Message → ℕ
estimate_message (user_message m) = estimate_chars (content_chars m.content)
estimate_message (assistant_message m) = estimate_chars (content_chars m.content)
estimate_message (tool_result_message m) = estimate_chars (content_chars m.content)

unfoldable pub estimate_agent_message : AgentMessage → ℕ
estimate_agent_message (model_message m excluded) = if excluded then 0 else estimate_message m
estimate_agent_message (bash_execution command output code ts) =
    estimate_chars (length command + length output)
estimate_agent_message (compaction_summary s ts) = estimate_chars (length s)
estimate_agent_message (branch_summary s ts) = estimate_chars (length s)
estimate_agent_message (custom_message c ts) = estimate_chars (length c)

unfoldable pub sum_of : {A : Type 0} → (A → ℕ) → List A → ℕ
sum_of cost [] = 0
sum_of cost (x ∷ xs) = cost x + sum_of cost xs

-- The reported total of the last item that has one, and the estimates of all after it; `sum`
-- is what the later items cost, and the walk goes backwards, so the list is newest first.
unfoldable pub anchored : {A : Type 0} → (A → ℕ) → (A → ℕ) → List A → ℕ → ℕ
anchored usage cost [] sum = sum
anchored usage cost (x ∷ xs) sum =
    let rest = anchored usage cost xs (cost x + sum) in if usage x == 0 then rest else usage x + sum

abbrev pub message_usage : Message → ℕ
message_usage (assistant_message m) = m.usage.total
message_usage (user_message m) = 0
message_usage (tool_result_message m) = 0

abbrev pub agent_usage : AgentMessage → ℕ
agent_usage (model_message m excluded) = message_usage m
agent_usage (bash_execution command output code ts) = 0
agent_usage (compaction_summary s ts) = 0
agent_usage (branch_summary s ts) = 0
agent_usage (custom_message c ts) = 0

unfoldable pub estimate_context : List AgentMessage → ℕ
estimate_context ms = anchored agent_usage estimate_agent_message (reverse ms) 0

unfoldable pub estimate_context_pure : List AgentMessage → ℕ
estimate_context_pure ms = sum_of estimate_agent_message ms

unfoldable pub estimate_entry : Session.Entry → ℕ
estimate_entry e = elim e.body [
  | Session.message m pinned ↦ estimate_message m
  | Session.custom_message t content display details pinned ↦ estimate_chars (length content)
  | Session.branch_summary from summary details ↦ estimate_chars (length summary)
  | Session.compaction summary first before lists ↦ estimate_chars (length summary)
  | _ ↦ 0
]

abbrev pub entry_usage : Session.Entry → ℕ
entry_usage e = elim e.body [ Session.message m pinned ↦ message_usage m | _ ↦ 0 ]

unfoldable pub estimate_path : List Session.Entry → ℕ
estimate_path path = anchored entry_usage estimate_entry (reverse path) 0
