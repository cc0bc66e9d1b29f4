-- ===== src/Obs/Usage.antt =====
-- internal/obs/usage.go: the usage of a session, folded from its events. Costs are floats and are
-- left out, as they are from Ai.Usage.
pub mod Totals
mod Samples
use mixi.Base.{
  ℕ, suc, ◌+◌, ◌-◌, ◌≡◌, refl, inl, inr, Option, none, some, List, [], ◌∷◌, ◌++◌, arith, ◌==◌,
  if◌then◌else◌, Bool-cases, ◌≤◌, ap,
}
use mixi.Base.Bytes.{Bytes, codes, bytes_eq}
use mixi.Ai.{Usage, AssistantMessage, assistant_message}
use mixi.Agent.Messages.{AgentMessage, model_message}
use mixi.Agent.Events.{Event, turn_start, turn_end, tool_start, message_end}

pub record TurnUsage : Type 0 where
  pub turn : ℕ
  pub model : Bytes
  pub usage : Usage
  pub duration : ℕ
  pub tool_calls : ℕ

-- `started` is when the current turn began.
pub record Tracker : Type 0 where
  pub turns : List TurnUsage
  pub current : Option TurnUsage
  pub started : ℕ
  pub total : Usage
  pub by_model : List (Bytes × Usage)
  pub last_context : ℕ

abbrev pub no_usage : Usage
no_usage = record { input = 0; output = 0; cache_read = 0; cache_write = 0; total = 0 }

abbrev pub new_tracker : Tracker
new_tracker = record {
  turns = [];
  current = none;
  started = 0;
  total = no_usage;
  by_model = [];
  last_context = 0;
}

abbrev pub add_usage : Usage → Usage → Usage
add_usage a u = record {
  input = a.input + u.input;
  output = a.output + u.output;
  cache_read = a.cache_read + u.cache_read;
  cache_write = a.cache_write + u.cache_write;
  total = a.total + u.total;
}

-- t.byModel[key] with the usage added, from zero where the key is new
unfoldable pub add_to_model : Bytes → Usage → List (Bytes × Usage) → List (Bytes × Usage)
add_to_model key u [] = (key, add_usage no_usage u) ∷ []
add_to_model key u ((k, v) ∷ rest) =
    let more = add_to_model key u rest in
    if bytes_eq k key then (k, add_usage v u) ∷ rest else (k, v) ∷ more

abbrev pub context_of : Usage → ℕ
context_of u = u.input + u.cache_read + u.cache_write + u.output

abbrev pub model_key : AssistantMessage → Bytes
model_key m = m.provider ++ codes "/" ++ m.model

abbrev pub in_turn : Bytes → Usage → Option TurnUsage → Option TurnUsage
in_turn key u none = none
in_turn key u (some c) = some (record c { model = key; usage = add_usage c.usage u })

-- a usage that arrived, under a key
abbrev pub count_usage : Bytes → Usage → Tracker → Tracker
count_usage key u t = record t {
  total = add_usage t.total u;
  by_model = add_to_model key u t.by_model;
  last_context = context_of u;
}

unfoldable pub observe_message : AgentMessage → Tracker → Tracker
observe_message (model_message (assistant_message m) excluded) t =
    if m.usage.total == 0
    then t
    else count_usage (model_key m) m.usage
        (record t { current = in_turn (model_key m) m.usage t.current })
observe_message _ t = t

abbrev pub one_more_call : Option TurnUsage → Option TurnUsage
one_more_call none = none
one_more_call (some c) = some (record c { tool_calls = suc c.tool_calls })

abbrev pub close_turn : ℕ → Option TurnUsage → Tracker → Tracker
close_turn now none t = t
close_turn now (some c) t = record t {
  turns = t.turns ++ record c { duration = now - t.started } ∷ [];
  current = none;
}

-- Observe, at a time
unfoldable pub observe : ℕ → Event → Tracker → Tracker
observe now (turn_start n) t = record t {
  current = some (record { turn = n; model = []; usage = no_usage; duration = 0; tool_calls = 0 });
  started = now;
}
observe now (tool_start id) t = record t { current = one_more_call t.current }
observe now (message_end m) t = observe_message m t
observe now (turn_end n m results) t = close_turn now t.current t
observe now _ t = t

-- RecordTurn
unfoldable pub record_turn : ℕ → Bytes → Usage → Tracker → Tracker
record_turn n model u t = record (count_usage model u t) {
  turns =
      t.turns ++ record { turn = n; model = model; usage = u; duration = 0; tool_calls = 0 } ∷ [];
}

abbrev shown_turns : List TurnUsage → Option TurnUsage → List TurnUsage
shown_turns turns none = turns
shown_turns turns (some c) = if bytes_eq c.model [] then turns else turns ++ c ∷ []

-- Snapshot, of the turns
unfoldable pub snapshot_turns : Tracker → List TurnUsage
snapshot_turns t = shown_turns t.turns t.current
