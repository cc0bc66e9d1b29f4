-- ===== src/Agent/Loop.antt =====
-- internal/agent/loop.go, runLoop: the turns of one run, with the queues, the turn cap and the
-- hooks. The world is what the turns, the tools, the hooks and the other goroutines change.
pub mod Runs
pub mod Cap
mod Samples
use mixi.Base.{
  ℕ, zero, suc, Bool, true, false, not, ◌&&◌, ◌||◌, Option, none, some, List, [], ◌∷◌, ◌++◌, ltb,
  if◌then◌else◌,
}
use mixi.Ai.{
  Content, AssistantMessage, ToolResultMessage, StopReason, tool_call, assistant_message,
  tool_result_message, text_content, image_content, thinking_content,
}
use mixi.Agent.Messages.{AgentMessage, model_message}
use mixi.Agent.ToolExec.{ToolCall}
use mixi.Agent.Turn.{is_aborted}

pub data EndReason : Type 0 where
  end_done end_aborted end_error end_max_turns : EndReason

pub data Event : Type 0 where
  agent_start : Event
  message_start : AgentMessage → Event
  message_end : AgentMessage → Event
  max_turns_notice : ℕ → Event
  turn_start : ℕ → Event
  turn_end : ℕ → AssistantMessage → List ToolResultMessage → Event
  agent_end : EndReason → List AgentMessage → Event

-- What the loop calls. `stream_turn` also says whether the run may go on; `prepare_next_turn` may
-- change the model and the options, which the world holds.
pub record LoopDeps (W : Type 0) : Type 0 where
  pub emit : Event → W → W
  pub on_message : AgentMessage → W → W
  pub steering_waits : W → Bool × W
  pub drain_steering : W → List AgentMessage × W
  pub drain_follow_up : W → List AgentMessage × W
  pub stream_turn : List AgentMessage → W → AssistantMessage × Bool × W
  pub run_tools : List ToolCall → W → List ToolResultMessage × W
  pub ctx_ended : W → Bool × W
  pub after_turn : ℕ → W → W
  pub prepare_next_turn : ℕ → W → W
  pub should_stop : ℕ → AssistantMessage → W → Bool × W
  pub max_turns : ℕ

pub record Run (W : Type 0) : Type 0 where
  pub msgs : List AgentMessage
  pub new_msgs : List AgentMessage
  pub turn : ℕ
  pub world : W

-- What a turn leads to: the end, or the next turn, and whether tools were called
pub data Step (W : Type 0) : Type 0 where
  ended : EndReason → Run W → Step W
  next_turn : (had_tool_calls : Bool) → Run W → Step W

abbrev call_of : Content → List ToolCall
call_of (tool_call id name args sig) =
    record { id = id; name = name; args = args; thought_signature = sig } ∷ []
call_of (text_content text sig) = []
call_of (image_content encoded mime) = []
call_of (thinking_content thinking sig redacted) = []

unfoldable pub calls_in : List Content → List ToolCall
calls_in [] = []
calls_in (c ∷ cs) = call_of c ++ calls_in cs

unfoldable pub extract_tool_calls : AssistantMessage → List ToolCall
extract_tool_calls m = calls_in m.content

abbrev pub is_empty : {A : Type 0} → List A → Bool
is_empty [] = true
is_empty (x ∷ xs) = false

module _ {W : Type 0} (d : LoopDeps W) where
  abbrev emitted : Event → Run W → Run W
  emitted e s = record s { world = d.emit e s.world }

  unfoldable pub record_message : AgentMessage → Run W → Run W
  record_message m s = record s {
    msgs = s.msgs ++ m ∷ [];
    new_msgs = s.new_msgs ++ m ∷ [];
    world = d.on_message m s.world;
  }

  unfoldable pub inject : List AgentMessage → Run W → Run W
  inject [] s = s
  inject (m ∷ ms) s =
      inject ms (emitted (message_end m) (record_message m (emitted (message_start m) s)))

  unfoldable pub record_results : List ToolResultMessage → Run W → Run W
  record_results [] s = s
  record_results (r ∷ rs) s =
      record_results rs (record_message (model_message (tool_result_message r) false) s)

  -- An early return, where a check in the world says so
  unfoldable pub end_if : EndReason → Run W → (W → Step W) → Bool × W → Step W
  end_if reason t more (true, w) = ended reason (record t { world = w })
  end_if reason t more (false, w) = more w

  -- The end of a turn, with its results recorded
  unfoldable pub close_turn : AssistantMessage → Bool → List ToolResultMessage → Run W → Step W
  close_turn asst had_calls results s =
      let t = emitted (turn_end s.turn asst results) s in
      end_if end_aborted t
        (λ w.
          end_if end_done t (λ w'. next_turn had_calls (record t { world = w' }))
            (d.should_stop t.turn asst (d.prepare_next_turn t.turn (d.after_turn t.turn w))))
        (d.ctx_ended t.world)

  unfoldable pub dispatch : AssistantMessage → List ToolCall → Run W → Step W
  dispatch asst [] s = close_turn asst false [] s
  dispatch asst (c ∷ cs) s =
      let r = d.run_tools (c ∷ cs) s.world in
      close_turn asst true (r.0) (record_results (r.0) (record s { world = r.1 }))

  unfoldable pub turn_with : AssistantMessage → Bool → Run W → Step W
  turn_with asst ok s =
      let m = model_message (assistant_message asst) false in
      let t = emitted (message_end m) (record_message m s) in
      if ok
      then dispatch asst (extract_tool_calls asst) t
      else ended (if is_aborted asst.stop_reason then end_aborted else end_error) t

  unfoldable pub stream_step : Run W → Step W
  stream_step s =
      let r = d.stream_turn s.msgs s.world in turn_with (r.0) (r.1) (record s { world = r.2 })

  -- The guard, and the turn that it lets through
  unfoldable pub guarded : Run W → Step W
  guarded s =
      if ltb 0 d.max_turns && ltb d.max_turns s.turn
      then ended end_max_turns (emitted (max_turns_notice d.max_turns) s)
      else stream_step (emitted (turn_start s.turn) s)

  unfoldable pub turn_body : List AgentMessage → Run W → Step W
  turn_body pending s =
      let t = inject pending s in
      let r = d.drain_steering t.world in
      let u = inject (r.0) (record t { world = r.1 }) in guarded (record u { turn = suc u.turn })

  abbrev closed : EndReason → Run W → List AgentMessage × EndReason × Run W
  closed reason s = (s.new_msgs, reason, emitted (agent_end reason s.new_msgs) s)

  abbrev pub advance :
      (Bool → Run W → Option (List AgentMessage × EndReason × Run W))
      → Step W
      → Option (List AgentMessage × EndReason × Run W)
  advance more (ended reason s) = some (closed reason s)
  advance more (next_turn had_calls s) = more had_calls s

  abbrev pub follow :
      (List AgentMessage → Run W → Option (List AgentMessage × EndReason × Run W))
      → List AgentMessage
      → Run W
      → Option (List AgentMessage × EndReason × Run W)
  follow more [] s = some (closed end_done s)
  follow more (m ∷ ms) s = more (m ∷ ms) s

  -- One round of both loops: a turn while something asks for one, and else a poll of the follow-ups.
  -- The steering queue is read only if nothing else asks for a turn; `more` is the rounds after it.
  unfoldable pub round :
      (List AgentMessage → Bool → Run W → Option (List AgentMessage × EndReason × Run W))
      → List AgentMessage
      → Bool
      → Run W
      → Option (List AgentMessage × EndReason × Run W)
  round more pending had_calls s =
      if not (is_empty pending) || had_calls
      then advance (more []) (turn_body pending s)
      else let r = d.steering_waits s.world in
        if r.0
        then advance (more []) (turn_body pending (record s { world = r.1 }))
        else let f = d.drain_follow_up (r.1) in
          follow (λ ms. more ms false) (f.0) (record s { world = f.1 })

  unfoldable pub loop :
      ℕ → List AgentMessage → Bool → Run W → Option (List AgentMessage × EndReason × Run W)
  loop zero pending had_calls s = none
  loop (suc fuel) pending had_calls s = round (loop fuel) pending had_calls s

  unfoldable pub run_loop :
      ℕ → List AgentMessage → List AgentMessage → W → Option (List AgentMessage × EndReason × Run W)
  run_loop fuel history initial w =
      loop fuel initial (is_empty initial)
        (record { msgs = history; new_msgs = []; turn = 0; world = d.emit agent_start w })
