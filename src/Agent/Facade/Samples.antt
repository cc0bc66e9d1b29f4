-- ===== src/Agent/Facade/Samples.antt =====
-- internal/agent/agent.go: a run, steered while it is active.
use mixi.Base.{false, none, [], ◌∷◌}
use mixi.Base.Bytes.{Bytes, codes}
use mixi.Agent.Messages.{custom_message}
use mixi.Agent.Queue.{drain_all}
use mixi.Agent.Facade.{Agent, Model, new_agent, begin_run}

abbrev model : Bytes → Model
model id = record { api = []; provider = []; id = id }

abbrev idle : Agent
idle = record (new_agent (model (codes "m")) [] false 0 drain_all []) {
  run = none;
  messages = custom_message (codes "old") 0 ∷ [];
}

abbrev busy : Agent
busy = (begin_run (custom_message (codes "new") 0 ∷ []) idle).1
