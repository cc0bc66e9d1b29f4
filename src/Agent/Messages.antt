-- ===== src/Agent/Messages.antt =====
-- internal/agent/messages.go: the items of a conversation, and what the model sees of them. Exit
-- codes are not negative.
use mixi.Base.{
  ℕ, Bool, true, false, ◌||◌, List, [], ◌∷◌, ◌++◌, if◌then◌else◌, any, ◌≡◌, Bool-cases, ◌∙◌, inl,
  ap₂, inr, refl,
}
use mixi.Base.Bytes.{decimal, Bytes, codes}
use mixi.Ai.{Message, text_content, user_message, assistant_message, tool_result_message}

pub data AgentMessage : Type 0 where
  model_message : Message → (excluded : Bool) → AgentMessage
  bash_execution : (command output : Bytes) → (exit_code timestamp : ℕ) → AgentMessage
  compaction_summary : (summary : Bytes) → (timestamp : ℕ) → AgentMessage
  branch_summary : (summary : Bytes) → (timestamp : ℕ) → AgentMessage
  custom_message : (content : Bytes) → (timestamp : ℕ) → AgentMessage

abbrev pub user_text : Bytes → ℕ → Message
user_text text ts = user_message (record { content = text_content text [] ∷ []; timestamp = ts })

abbrev pub summary_text : Bytes → Bytes
summary_text s = codes "<summary>\n" ++ s ++ codes "\n</summary>"

abbrev pub ran_text : Bytes → Bytes → ℕ → Bytes
ran_text command output code =
    codes "I ran this command:\n```\n"
    ++ command
    ++ codes "\n```\nOutput (exit code "
    ++ decimal code
    ++ codes "):\n```\n"
    ++ output
    ++ codes "\n```"

-- A content-less assistant message is not representable on the wire.
abbrev pub is_empty_turn : Message → Bool
is_empty_turn (assistant_message m) = elim m.content [ [] ↦ true | c ∷ cs ↦ false ]
is_empty_turn (user_message m) = false
is_empty_turn (tool_result_message m) = false

-- ToLLM, of one item
unfoldable pub project : AgentMessage → List Message
project (model_message m excluded) = if excluded || is_empty_turn m then [] else m ∷ []
project (bash_execution command output code ts) = user_text (ran_text command output code) ts ∷ []
project (compaction_summary s ts) = user_text (summary_text s) ts ∷ []
project (branch_summary s ts) = user_text (summary_text s) ts ∷ []
project (custom_message c ts) = user_text c ts ∷ []

unfoldable pub to_llm : List AgentMessage → List Message
to_llm [] = []
to_llm (m ∷ ms) = project m ++ to_llm ms

any-append :
    (xs ys : List Message)
    → any is_empty_turn (xs ++ ys) ≡ any is_empty_turn xs || any is_empty_turn ys
any-append [] ys = refl
any-append (x ∷ xs) ys = elim (Bool-cases (is_empty_turn x)) [
  | inl q ↦ rw q
  | inr q ↦ rw q (any-append xs ys)
]

project_lem : (m : AgentMessage) → any is_empty_turn (project m) ≡ false
unfolding project
project_lem (bash_execution command output code ts) = refl
project_lem (compaction_summary s ts) = refl
project_lem (branch_summary s ts) = refl
project_lem (custom_message c ts) = refl
project_lem (model_message m true) = refl
project_lem (model_message m false) = one (is_empty_turn m) refl
  where
    one : (b : Bool) → is_empty_turn m ≡ b → any is_empty_turn (if b then [] else m ∷ []) ≡ false
    one true h = refl
    one false h = rw h

-- Whatever the conversation holds, no assistant message without content reaches the model.
pub to_llm-is_empty_turn : (ms : List AgentMessage) → any is_empty_turn (to_llm ms) ≡ false
unfolding to_llm
to_llm-is_empty_turn [] = refl
to_llm-is_empty_turn (m ∷ ms) =
    any-append (project m) (to_llm ms)
    ∙ ap₂ (λ a b. a || b) (project_lem m) (to_llm-is_empty_turn ms)
