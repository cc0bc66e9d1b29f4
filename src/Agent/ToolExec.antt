-- ===== src/Agent/ToolExec.antt =====
-- internal/agent/toolexec.go: the tool calls of one turn. A tool, a filter and a hook are what they
-- answer; fmt's %q and %v, and the schema package, are parameters, and events go to nobody.
pub mod Pairing
use mixi.Base.{
  ℕ, zero, suc, ◌+◌, ◌*◌, ◌⊎◌, inl, inr, Bool, true, false, ◌||◌, Option, none, some, List, [], ◌∷◌,
  ◌++◌, map, ◌==◌, if◌then◌else◌, take, any,
}
use mixi.Base.Bytes.{Bytes, codes, cons_head, join}
use mixi.Ai.{Content, ToolResultMessage, text_content, tool_call}

pub record ToolCall : Type 0 where
  pub id : Bytes
  pub name : Bytes
  pub args : Bytes
  pub thought_signature : Bytes

-- What Execute ends with; a panic has its value and its stack.
pub data Execution : Type 0 where
  returned : (content : List Content) → (details : Bytes) → (is_error : Bool) → Execution
  failed : (message : Bytes) → Execution
  panicked : (value stack : Bytes) → Execution

pub record ToolResult : Type 0 where
  pub content : List Content
  pub details : Bytes
  pub is_error : Bool

pub record Tool : Type 0 where
  pub sequential : Bool
  pub schema : Bytes
  pub execute : Bytes → Execution

-- A filter passes a call on, with new arguments if there are any, blocks it, or breaks.
pub data Filtered : Type 0 where
  passes : (args : Option Bytes) → Filtered
  blocks : (reason : Bytes) → Filtered
  breaks : (message : Bytes) → Filtered

-- What schema.Compile and ValidateAndCoerce answer
pub data Validated : Type 0 where
  coerced : (args : Bytes) → Validated
  invalid_schema : (message : Bytes) → Validated
  invalid_args : (message : Bytes) → Validated

-- The registry, the filters, the hooks and the clock
pub record Deps : Type 0 where
  pub get : Bytes → Option Tool
  pub filters : List (ToolCall → Filtered)
  pub before_tool_call : ToolCall → Option Bytes
  pub validate : Tool → ToolCall → Validated
  pub after_tool_call : ToolCall → ToolResult → ToolResult
  pub quote : Bytes → Bytes
  pub sequential : Bool
  pub now : ℕ

abbrev aborted_result_text : Bytes
aborted_result_text = codes "Operation aborted"

abbrev text_result : Bytes → List Content
text_result text = text_content text [] ∷ []

unfoldable pub error_result : ℕ → ToolCall → Bytes → ToolResultMessage
error_result now call text = record {
  tool_call_id = call.id;
  tool_name = call.name;
  content = text_result text;
  details = [];
  is_error = true;
  timestamp = now;
}

-- Each line that a newline ends, and the last one, if it has any bytes
unfoldable pub split_lines : Bytes → List Bytes
unfolding cons_head
split_lines [] = []
split_lines (b ∷ s) = let rest = split_lines s in if b == 10 then [] ∷ rest else cons_head b rest

-- The header and two lines for each of `n` frames
unfoldable pub top_frames : Bytes → ℕ → Bytes
top_frames stack n = join 10 (take (1 + 2 * n) (split_lines stack))

unfoldable pub safe_execute : Tool → ToolCall → ToolResult
safe_execute tool call = elim (tool.execute call.args) [
  | returned content details is_error ↦ record {
    content = content;
    details = details;
    is_error = is_error;
  }
  | failed message ↦ record { content = text_result message; details = []; is_error = true }
  | panicked value stack ↦ record {
    content = text_result (codes "tool panicked: " ++ value ++ codes "\n" ++ top_frames stack 5);
    details = [];
    is_error = true;
  }
]

unfoldable pub invoke_tool : Deps → Tool → ToolCall → ToolResultMessage
invoke_tool d tool call =
    let res = d.after_tool_call call (safe_execute tool call) in
    record {
      tool_call_id = call.id;
      tool_name = call.name;
      content = res.content;
      details = res.details;
      is_error = res.is_error;
      timestamp = d.now;
    }

-- What a filter's answer leads to; `rest` is the filters after it.
abbrev pub filtered : (ToolCall → Bytes ⊎ ToolCall) → ToolCall → Filtered → Bytes ⊎ ToolCall
filtered rest call (breaks message) = inl (codes "Tool call rejected: filter failed: " ++ message)
filtered rest call (blocks reason) = inl reason
filtered rest call (passes none) = rest call
filtered rest call (passes (some args)) = rest (record call { args = args })

-- The filters in order: the call with its arguments as they leave them, or what the call is
-- rejected with
unfoldable pub filter_call : List (ToolCall → Filtered) → ToolCall → Bytes ⊎ ToolCall
filter_call [] call = inr call
filter_call (f ∷ fs) call = filtered (filter_call fs) call (f call)

abbrev pub prepared : Deps → Tool → ToolCall → Validated → Bytes ⊎ (Tool × ToolCall)
prepared d tool call (invalid_schema message) =
    inl (codes "Tool " ++ d.quote call.name ++ codes " has an invalid schema: " ++ message)
prepared d tool call (invalid_args message) = inl message
prepared d tool call (coerced args) = inr (tool, record call { args = args })

abbrev pub checked : Deps → Tool → ToolCall → Option Bytes → Bytes ⊎ (Tool × ToolCall)
checked d tool call (some reason) = inl (codes "Tool call blocked: " ++ reason)
checked d tool call none = prepared d tool call (d.validate tool call)

abbrev pub looked_up : Deps → ToolCall → Option Tool → Bytes ⊎ (Tool × ToolCall)
looked_up d call none = inl (codes "Unknown tool " ++ d.quote call.name)
looked_up d call (some tool) = elim (filter_call d.filters call) [
  | inl reason ↦ inl reason
  | inr call' ↦ checked d tool call' (d.before_tool_call call')
]

unfoldable pub prepare_call : Deps → ToolCall → Bytes ⊎ (Tool × ToolCall)
prepare_call d call = looked_up d call (d.get call.name)

-- What is to be run once the checks are over; ctx may have ended meanwhile.
unfoldable pub run_prepared : Deps → ToolCall → Bool → Bytes ⊎ (Tool × ToolCall) → ToolResultMessage
run_prepared d call ended (inl text) = error_result d.now call text
run_prepared d call ended (inr (tool, prepared)) =
    if ended then error_result d.now call aborted_result_text else invoke_tool d tool prepared

unfoldable pub run_one_call : Deps → ToolCall → Bool → ToolResultMessage
run_one_call d call ended = run_prepared d call ended (prepare_call d call)

-- A call, with ctx.Err before its checks and before it runs
pub record TimedCall : Type 0 where
  pub call : ToolCall
  pub ended_before : Bool
  pub ended_after : Bool

unfoldable pub exec_sequential : Deps → Bool → List TimedCall → List ToolResultMessage
exec_sequential d aborted [] = []
exec_sequential d aborted (t ∷ ts) =
    if aborted || t.ended_before
    then error_result d.now t.call aborted_result_text ∷ exec_sequential d true ts
    else run_one_call d t.call t.ended_after ∷ exec_sequential d false ts

-- The first pass of execParallel: a result at once, or a job for its slot
pub data Slot : Type 0 where
  done : ToolResultMessage → Slot
  waiting : (tool : Tool) → (call prepared : ToolCall) → (ended : Bool) → Slot

abbrev pub slot_of : Deps → TimedCall → Bytes ⊎ (Tool × ToolCall) → Slot
slot_of d t (inl text) = done (error_result d.now t.call text)
slot_of d t (inr (tool, ready)) = waiting tool t.call ready t.ended_after

unfoldable pub slot : Deps → TimedCall → Slot
slot d t =
    if t.ended_before
    then done (error_result d.now t.call aborted_result_text)
    else slot_of d t (prepare_call d t.call)

abbrev pub run_slot : Deps → Slot → Slot
run_slot d (done r) = done r
run_slot d (waiting tool call prepared ended) =
    done (run_prepared d call ended (inr (tool, prepared)))

-- A goroutine finishes: the slot of its index is filled.
unfoldable pub finish_at : Deps → ℕ → List Slot → List Slot
finish_at d i [] = []
finish_at d zero (s ∷ ss) = run_slot d s ∷ ss
finish_at d (suc i) (s ∷ ss) = s ∷ finish_at d i ss

unfoldable pub finish_all : Deps → List ℕ → List Slot → List Slot
finish_all d [] ss = ss
finish_all d (i ∷ is) ss = finish_all d is (finish_at d i ss)

-- The slots after every goroutine has finished, in the order of `completed`
unfoldable pub exec_parallel : Deps → List ℕ → List TimedCall → List Slot
exec_parallel d completed ts = finish_all d completed (map (slot d) ts)

abbrev wants_sequence : Deps → TimedCall → Bool
wants_sequence d t = elim (d.get t.call.name) [ none ↦ false | some tool ↦ tool.sequential ]

unfoldable pub runs_sequentially : Deps → List TimedCall → Bool
runs_sequentially d ts = d.sequential || any (wants_sequence d) ts

unfoldable pub execute_tool_calls : Deps → List ℕ → List TimedCall → List Slot
execute_tool_calls d completed ts =
    if runs_sequentially d ts
    then map done (exec_sequential d false ts)
    else exec_parallel d completed ts
