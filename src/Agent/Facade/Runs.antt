-- ===== src/Agent/Facade/Runs.antt =====
-- internal/agent/agent.go: one run at a time, and a conversation that only grows.
use mixi.Base.{◌≡◌, Option, none, some, List, ◌++◌}
use mixi.Agent.Messages.{AgentMessage}
use mixi.Agent.Facade.{Agent, Deps}

-- The run that is active was given the conversation as it still is.
abbrev pub HistoryOf : Option Deps → List AgentMessage → Type 0
HistoryOf none ms = Unit
HistoryOf (some d) ms = d.history ≡ ms

-- a conversation begins with another
abbrev pub Extends : List AgentMessage → List AgentMessage → Type 0
Extends old new = (more : List AgentMessage) × (new ≡ old ++ more)

-- what a step keeps
record Kept (a b : Agent) : Type 0 where
  history : HistoryOf b.run b.messages
  extends : Extends a.messages b.messages
