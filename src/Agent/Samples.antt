-- ===== src/Agent/Samples.antt =====
-- internal/agent: messages, turns and batches of calls, run.
use mixi.Base.{
  ℕ, zero, suc, ◌≤◌, ◌<◌, ◌≡◌, refl, true, false, none, some, List, [], ◌∷◌, map, arith,
  if◌then◌else◌, length,
}
use mixi.Base.Bytes.{Bytes, codes, bytes_eq, has_prefix, contains}
use mixi.Ai.{AssistantMessage, assistant_message, error, stop, text_content}
use mixi.Agent.Messages.{
  AgentMessage, model_message, custom_message, to_llm, is_empty_turn, user_text,
  to_llm-is_empty_turn,
}
use mixi.Agent.Retry.{
  RetryClass, fatal, retryable, overflow, classify_error, http_status, to_lower, Delay, suggested,
  backoff, retry_delay,
}
use mixi.Agent.Turn.{
  World, StreamEvent, event_done, event_error, content_event, Turned, turn_loop, after_reply,
  pump_stream, pump, stream_turn, reply,
}
use mixi.Agent.Turn.Retries.{stream_turn_total}
use mixi.Agent.ToolExec.{
  Tool, Deps, TimedCall, passes, blocks, coerced, returned, done, exec_parallel,
}
use mixi.Agent.ToolExec.Pairing.{occurs, settled, exec_parallel-settled}

abbrev asst : Bytes → AssistantMessage
asst err = record {
  content = [];
  api = [];
  provider = [];
  model = [];
  response_model = [];
  response_id = [];
  usage = record { input = 0; output = 0; cache_read = 0; cache_write = 0; total = 0 };
  stop_reason = error;
  error_message = err;
  timestamp = 0;
}

overflows : classify_error (codes "HTTP 400: Prompt is too long") ≡ overflow
unfolding classify_error contains mixi.Agent.Retry.to_lower
overflows = refl

limited : classify_error (codes "HTTP 429 slow down") ≡ retryable
unfolding classify_error contains mixi.Agent.Retry.to_lower mixi.Agent.Retry.http_status
limited = refl

unauthorized : classify_error (codes "HTTP 401: overloaded") ≡ fatal
unfolding classify_error contains mixi.Agent.Retry.to_lower mixi.Agent.Retry.http_status
unauthorized = refl

named_delay : retry_delay 1 (codes "Retry-After: 30s") 0 ≡ suggested 30
unfolding retry_delay mixi.Agent.Retry.retry_after has_prefix mixi.Agent.Retry.to_lower
    mixi.Agent.Retry.number_after mixi.Agent.Retry.digits
named_delay = refl

third_delay : retry_delay 3 (codes "broken pipe") 0 ≡ backoff 8000000000
unfolding retry_delay mixi.Agent.Retry.retry_after has_prefix mixi.Agent.Retry.to_lower
third_delay = refl

empty_turn :
    to_llm (model_message (assistant_message (asst [])) false ∷ custom_message (codes "a") 1 ∷ [])
    ≡ user_text (codes "a") 1 ∷ []
unfolding to_llm mixi.Agent.Messages.project
empty_turn = refl

-- Two failures, then an answer
abbrev answers : ℕ → List StreamEvent
answers zero = event_error (asst (codes "HTTP 503")) ∷ []
answers (suc zero) = event_error (asst (codes "HTTP 529")) ∷ []
answers (suc (suc n)) = content_event ∷ event_done (record (asst []) { stop_reason = stop }) ∷ []

abbrev flaky : World
flaky = record {
  model = record { api = []; provider = []; id = [] };
  now = 0;
  streams = answers;
  ctx_error = λ n. none;
  frees_context = false;
  sleep_error = λ n. none;
}

third_call :
    stream_turn flaky
    ≡ some (record { message = record (asst []) { stop_reason = stop }; ok = true; calls = 3 })
unfolding stream_turn turn_loop after_reply reply pump_stream pump classify_error http_status
    to_lower contains
third_call = refl

stream_turn_total_example :
    (t : Turned) × (stream_turn flaky ≡ some t) × (0 < t.calls) × (t.calls ≤ 7)
stream_turn_total_example = stream_turn_total flaky

abbrev echo : Tool
echo = record {
  sequential = false;
  schema = [];
  execute = λ args. returned (text_content args [] ∷ []) [] false;
}

abbrev deps : Deps
deps = record {
  get = λ name. if bytes_eq name (codes "echo") then some echo else none;
  filters =
      (λ c. if bytes_eq c.args (codes "no") then blocks (codes "refused") else passes none) ∷ [];
  before_tool_call = λ c. none;
  validate = λ t c. coerced c.args;
  after_tool_call = λ c r. r;
  quote = λ s. s;
  sequential = false;
  now = 0;
}

abbrev timed : Bytes → Bytes → Bytes → TimedCall
timed id name args = record {
  call = record { id = id; name = name; args = args; thought_signature = [] };
  ended_before = false;
  ended_after = false;
}

abbrev batch : List TimedCall
batch =
    timed (codes "1") (codes "echo") (codes "hi")
    ∷ timed (codes "2") (codes "nope") []
    ∷ timed (codes "3") (codes "echo") (codes "no")
    ∷ []

each_occurs : (i : ℕ) → i < length batch → occurs i (2 ∷ 0 ∷ 1 ∷ []) ≡ true
each_occurs zero h = refl
each_occurs (suc zero) h = refl
each_occurs (suc (suc zero)) h = refl
each_occurs (suc (suc (suc n))) h = absurd (omega arith)

exec_parallel-settled_example :
    exec_parallel deps (2 ∷ 0 ∷ 1 ∷ []) batch ≡ map (λ t. done (settled deps t)) batch
exec_parallel-settled_example = exec_parallel-settled deps (2 ∷ 0 ∷ 1 ∷ []) batch each_occurs
