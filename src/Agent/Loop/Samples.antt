-- ===== src/Agent/Loop/Samples.antt =====
-- internal/agent/loop.go: a run whose model calls a tool each turn, up to the cap.
use mixi.Base.{ℕ, suc, ◌≤◌, ◌≡◌, refl, true, false, some, List, [], ◌∷◌, ◌++◌, arith}
use mixi.Base.Bytes.{codes}
use mixi.Ai.{
  AssistantMessage, ToolResultMessage, tool_call, tool_use, assistant_message, tool_result_message,
}
use mixi.Agent.Messages.{AgentMessage, model_message, custom_message}
use mixi.Agent.Loop.{EndReason, Event, LoopDeps, Run, end_max_turns, run_loop}
use mixi.Agent.Loop.Runs.{run_loop-history}
use mixi.Agent.Loop.Cap.{run_loop_total}

abbrev calls : AssistantMessage
calls = record {
  content = tool_call (codes "1") (codes "ls") [] [] ∷ [];
  api = [];
  provider = [];
  model = [];
  response_model = [];
  response_id = [];
  usage = record { input = 0; output = 0; cache_read = 0; cache_write = 0; total = 0 };
  stop_reason = tool_use;
  error_message = [];
  timestamp = 0;
}

abbrev answer : ToolResultMessage
answer = record {
  tool_call_id = codes "1";
  tool_name = codes "ls";
  content = [];
  details = [];
  is_error = false;
  timestamp = 0;
}

-- The world counts the events.
abbrev deps : LoopDeps ℕ
deps = record {
  emit = λ e w. suc w;
  on_message = λ m w. w;
  steering_waits = λ w. (false, w);
  drain_steering = λ w. ([], w);
  drain_follow_up = λ w. ([], w);
  stream_turn = λ ms w. (calls, true, w);
  run_tools = λ cs w. (answer ∷ [], w);
  ctx_ended = λ w. (false, w);
  after_turn = λ n w. w;
  prepare_next_turn = λ n w. w;
  should_stop = λ n m w. (false, w);
  max_turns = 1;
}

abbrev history : List AgentMessage
history = custom_message (codes "before") 0 ∷ []

abbrev asked : List AgentMessage
asked = custom_message (codes "go") 0 ∷ []

abbrev new : List AgentMessage
new =
    custom_message (codes "go") 0
    ∷ model_message (assistant_message calls) false
    ∷ model_message (tool_result_message answer) false
    ∷ []

abbrev last_state : Run ℕ
last_state = record {
  msgs = custom_message (codes "before") 0 ∷ new;
  new_msgs = new;
  turn = 2;
  world = 8;
}

capped : run_loop deps 4 history asked 0 ≡ some (new, end_max_turns, last_state)
unfolding run_loop mixi.Agent.Loop.loop mixi.Agent.Loop.round mixi.Agent.Loop.turn_body
    mixi.Agent.Loop.guarded mixi.Agent.Loop.inject mixi.Agent.Loop.record_message
    mixi.Agent.Loop.stream_step mixi.Agent.Loop.turn_with mixi.Agent.Loop.dispatch
    mixi.Agent.Loop.extract_tool_calls mixi.Agent.Loop.calls_in mixi.Agent.Loop.close_turn
    mixi.Agent.Loop.end_if mixi.Agent.Loop.record_results
capped = refl

run_loop-history_example : custom_message (codes "before") 0 ∷ new ≡ history ++ new
run_loop-history_example =
    run_loop-history deps history 4 asked new end_max_turns 0 last_state capped

run_loop_total_example :
    (out : List AgentMessage × EndReason × Run ℕ) × (run_loop deps 4 history asked 0 ≡ some out)
    × ((out.2).turn ≤ 2)
run_loop_total_example = run_loop_total deps history asked 0 (omega arith)
