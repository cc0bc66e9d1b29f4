-- ===== src/Agent/Facade.antt =====
-- internal/agent/agent.go: the agent, whose conversation one run at a time extends.
pub mod Runs
mod Samples
use mixi.Base.{
  ℕ, ◌≡◌, Bool, true, false, ◌||◌, Option, none, some, List, [], ◌∷◌, ◌++◌, ◌==◌, if◌then◌else◌,
}
use mixi.Base.Bytes.{Bytes, codes}
use mixi.Ai.{AssistantMessage, StopReason, error, assistant_message, text_content, user_message}
use mixi.Agent.Messages.{AgentMessage, model_message}
use mixi.Agent.Queue.{
  BoundedQueue, QueueError, new_bounded_queue, push, DrainMode, drain_all, default_queue_cap,
}

abbrev pub default_max_turns : ℕ
default_max_turns = 80

pub record Model : Type 0 where
  pub api : Bytes
  pub provider : Bytes
  pub id : Bytes

-- What a run is given when it begins, and keeps.
pub record Deps : Type 0 where
  pub model : Model
  pub thinking : Bytes
  pub max_turns : ℕ
  pub history : List AgentMessage
  pub initial : List AgentMessage

pub record Agent : Type 0 where
  pub run : Option Deps
  pub cancelled : Bool
  pub messages : List AgentMessage
  pub model : Model
  pub thinking : Bytes
  pub max_turns : ℕ
  pub steering : BoundedQueue AgentMessage
  pub follow_up : BoundedQueue AgentMessage

-- MaxTurns below zero is no cap, and zero is the default
abbrev pub turn_cap : (negative : Bool) → ℕ → ℕ
turn_cap true n = 0
turn_cap false n = if n == 0 then default_max_turns else n

-- New
unfoldable pub new_agent :
    Model → Bytes → (negative : Bool) → ℕ → DrainMode → List AgentMessage → Agent
new_agent m thinking negative n steer_drain history = record {
  run = none;
  cancelled = false;
  messages = history;
  model = m;
  thinking = thinking;
  max_turns = turn_cap negative n;
  steering = new_bounded_queue default_queue_cap steer_drain;
  follow_up = new_bounded_queue default_queue_cap drain_all;
}

abbrev pub running : Agent → Bool
running a = elim a.run [ none ↦ false | some d ↦ true ]

-- the first half of run; `none` is ErrBusy
unfoldable pub begin_run : List AgentMessage → Agent → Option Deps × Agent
begin_run initial a =
    let d : Deps = record {
      model = a.model;
      thinking = a.thinking;
      max_turns = a.max_turns;
      history = a.messages;
      initial = initial;
    } in
    if running a then (none, a) else (some d, record a { run = some d; cancelled = false })

-- How the loop ended: it returned the new messages, or it panicked with a text at a time.
pub data LoopEnd : Type 0 where
  returned : List AgentMessage → LoopEnd
  loop_panicked : (text : Bytes) → (now : ℕ) → LoopEnd

abbrev pub synthetic : Model → Bytes → ℕ → AgentMessage
synthetic m text now =
    model_message
      (assistant_message (record {
        content = [];
        api = m.api;
        provider = m.provider;
        model = m.id;
        response_model = [];
        response_id = [];
        usage = record { input = 0; output = 0; cache_read = 0; cache_write = 0; total = 0 };
        stop_reason = error;
        error_message = codes "internal error: " ++ text;
        timestamp = now;
      }))
      false

-- safeRunLoop: a panic leaves one synthetic message, and nothing of what the loop had gathered
unfoldable pub new_messages : Deps → LoopEnd → List AgentMessage
new_messages d (returned ms) = ms
new_messages d (loop_panicked text now) = synthetic d.model text now ∷ []

-- the second half of run
unfoldable pub end_run : Deps → LoopEnd → Agent → Agent
end_run d end a = record a {
  messages = a.messages ++ new_messages d end;
  run = none;
  cancelled = false;
}

-- Prompt, PromptMessages and Continue, of what they hand to run
pub prompt_messages : Bytes → ℕ → List AgentMessage
prompt_messages text now =
    model_message (user_message (record { content = text_content text [] ∷ []; timestamp = now }))
      false
    ∷ []

unfoldable pub steer : AgentMessage → Agent → Option QueueError × Agent
steer m a = let (err, q) = push m a.steering in (err, record a { steering = q })

unfoldable pub queue_follow_up : AgentMessage → Agent → Option QueueError × Agent
queue_follow_up m a = let (err, q) = push m a.follow_up in (err, record a { follow_up = q })

unfoldable pub set_model : Model → Agent → Agent
set_model m a = record a { model = m }

unfoldable pub set_thinking : Bytes → Agent → Agent
set_thinking level a = record a { thinking = level }

-- Abort cancels the context of the run, if there is one
unfoldable pub abort : Agent → Agent
abort a = record a { cancelled = running a || a.cancelled }

-- One step, of whichever goroutine.
pub data Step : Agent → Agent → Type 0 where
  run_begins : (a : Agent) (initial : List AgentMessage) → Step a ((begin_run initial a).1)
  run_ends : (a : Agent) (d : Deps) (end : LoopEnd) → a.run ≡ some d → Step a (end_run d end a)
  steered : (a : Agent) (m : AgentMessage) → Step a ((steer m a).1)
  followed : (a : Agent) (m : AgentMessage) → Step a ((queue_follow_up m a).1)
  model_set : (a : Agent) (m : Model) → Step a (set_model m a)
  thinking_set : (a : Agent) (level : Bytes) → Step a (set_thinking level a)
  aborted : (a : Agent) → Step a (abort a)

pub data Reach (a : Agent) : Agent → Type 0 where
  here : Reach a a
  next : {b c : Agent} → Reach a b → Step b c → Reach a c
