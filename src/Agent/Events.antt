-- ===== src/Agent/Events.antt =====
-- internal/agent/events.go: the events of a run, and the bus that fans them out.
pub mod Delivery
mod Samples
use mixi.Base.{ℕ, suc, max, Bool, true, false, List, [], ◌∷◌, ◌++◌, ltb, if◌then◌else◌, length}
use mixi.Base.Bytes.{Bytes}
use mixi.Ai.{AssistantMessage, ToolResultMessage}
use mixi.Agent.Messages.{AgentMessage}
use mixi.Agent.Loop.{EndReason}

pub data Event : Type 0 where
  agent_start : Event
  agent_end : EndReason → List AgentMessage → Event
  turn_start : (turn : ℕ) → Event
  turn_end : (turn : ℕ) → AssistantMessage → List ToolResultMessage → Event
  message_start : AgentMessage → Event
  message_update : (stream_event : Bytes) → Event
  message_end : AgentMessage → Event
  tool_start : (call_id : Bytes) → Event
  tool_update : (call_id part : Bytes) → Event
  tool_end : (call_id : Bytes) → ToolResultMessage → Event
  retry_start : (attempt max delay : ℕ) → (err : Bytes) → Event
  retry_end : (ok : Bool) → (attempt : ℕ) → Event
  compaction_start : Event
  compaction_end : (summary : Bytes) → (tokens_before : ℕ) → Event
  permission_ask : (request : Bytes) → Event
  notice : (text : Bytes) → Event
  status : (key text : Bytes) → Event

unfoldable pub is_render_only : Event → Bool
is_render_only (message_update e) = true
is_render_only (tool_update id part) = true
is_render_only _ = false

abbrev pub subscriber_buf : ℕ
subscriber_buf = 256

-- One consumer: what its channel holds, and what it has taken out, oldest first.
pub record Subscriber : Type 0 where
  pub closed : Bool
  pub buffer : List Event
  pub received : List Event
  pub dropped : ℕ

abbrev pub new_subscriber : Subscriber
new_subscriber = record { closed = false; buffer = []; received = []; dropped = 0 }

-- the consumer takes the oldest event; a closed channel still gives what it holds
unfoldable pub receive : Subscriber → Subscriber
receive s = elim s.buffer [
  | [] ↦ s
  | e ∷ es ↦ record s { buffer = es; received = s.received ++ e ∷ [] }
]

abbrev pub put : Event → Subscriber → Subscriber
put ev s = record s { buffer = s.buffer ++ ev ∷ [] }

-- deliver; `takes` says whether the consumer takes an event within the grace period. The first
-- result is false when it is to be disconnected.
unfoldable pub deliver : (takes : Bool) → Event → Subscriber → Bool × Subscriber
deliver takes ev s =
    if s.closed
    then (true, s)
    else if ltb (length s.buffer) subscriber_buf
    then (true, put ev s)
    else if is_render_only ev
    then (true, record s { dropped = suc s.dropped })
    else if takes
    then (true, put ev (receive s))
    else (false, s)

unfoldable pub close : Subscriber → Subscriber
close s = record s { closed = true }

-- A registered consumer under a key, as the map of the bus holds it.
pub record EventBus : Type 0 where
  pub subs : List (ℕ × Subscriber)
  pub gone : List (ℕ × Subscriber)
  pub next_key : ℕ

abbrev pub new_event_bus : EventBus
new_event_bus = record { subs = []; gone = []; next_key = 0 }

-- Subscribe
unfoldable pub subscribe : EventBus → ℕ × EventBus
subscribe b = (
  b.next_key,
  record b { subs = b.subs ++ (b.next_key, new_subscriber) ∷ []; next_key = suc b.next_key },
)

-- the loop of Publish over the snapshot: those that stay, and those that are cut
unfoldable pub deliver_all :
    (ℕ → Bool) → Event → List (ℕ × Subscriber) → List (ℕ × Subscriber) × List (ℕ × Subscriber)
deliver_all takes ev [] = ([], [])
deliver_all takes ev ((k, s) ∷ subs) =
    let (ok, t) = deliver (takes k) ev s in
    let (stay, cut) = deliver_all takes ev subs in
    if ok then ((k, t) ∷ stay, cut) else (stay, (k, close t) ∷ cut)

-- Publish
unfoldable pub publish : (ℕ → Bool) → Event → EventBus → EventBus
publish takes ev b =
    let (stay, cut) = deliver_all takes ev b.subs in record b { subs = stay; gone = cut ++ b.gone }

unfoldable pub close_each : List (ℕ × Subscriber) → List (ℕ × Subscriber)
close_each [] = []
close_each ((k, s) ∷ subs) = (k, close s) ∷ close_each subs

-- CloseAll
unfoldable pub close_all : EventBus → EventBus
close_all b = record b { subs = []; gone = close_each b.subs ++ b.gone }
