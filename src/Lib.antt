-- ===== src/Lib.antt =====
-- mixi-agent, a coding agent CLI in Go: a model of its core logic, with proofs.
-- Parts: internal/agent runs the loop of turns and tools over a provider's streams, with queues for
-- messages that arrive meanwhile. internal/perm decides each tool call before it runs.
-- internal/session keeps the conversation as an append-only tree of entries; internal/compact picks
-- the point up to which a session path is summarized, and appends the summary to the session.
-- internal/tools runs the tools and bounds what they return. internal/ai holds the message types
-- that the parts share, and
-- internal/ai/anthropic turns a history into a request.
-- Files: Base has the shared helpers, and in Base.Bytes Go's strings as lists of bytes.
--   Ai: internal/ai/types.go.
--   Agent.Queue: internal/agent/queue.go, a BoundedQueue with push and drain.
--   Agent.Messages: internal/agent/messages.go, ToLLM as to_llm.
--   Agent.Retry: internal/agent/retry.go, classifyError and retryDelay.
--   Agent.Turn, Agent.Loop: internal/agent/loop.go, pumpStream and streamTurn in the first, runLoop
--   in the second, where both of its loops are one loop of rounds over a Run.
--   Agent.ToolExec: internal/agent/toolexec.go; the results that goroutines write are Slots, filled
--   in the order in which the goroutines finish.
--   Perm: internal/perm, with Decide as Perm.Engine.decide and its grants in the Engine's record.
--   Session: internal/session, with an Index in Session.Tree and the MemStore over it.
--   Compact: internal/compact, with planCut in Compact.Cut and Compact in Compact.Compactor, which
--   reads and appends to a Session.MemStore.
--   Anthropic.Convert: internal/ai/anthropic/convert.go, convertMessages.
--   Session.FileStore, Session.Loader: internal/session/store.go and loader.go, with the bytes of the
--   file beside the store's fields; a JSON line is what a Format prints.
--   Session.EntryJson, Ai.Json: internal/session/entry_json.go and internal/ai/json.go, the wire
--   structs as fields over a Codec, which stands for the texts of encoding/json.
--   Compact.Controller: internal/compact/controller.go, over the MemStore and the working set.
--   Workset: internal/workset, with the WorkingSet in Workset.Files and Build in Workset.Builder.
--   Agent.Facade, Agent.Events: internal/agent/agent.go and events.go; what may interleave is a step.
--   Ext, Mcp.Supervisor: the handle and the supervisor of an extension in internal/ext, and the
--   supervisor of a server in internal/mcp.
--   Ai.Sse, Wire, Obs.Usage: internal/ai/sse/sse.go, internal/wire/jsonl.go, internal/obs/usage.go.
--   Tools.Truncate, Tools.Accumulator, Tools.Edits: truncate.go, accumulator.go and editmatch.go of
--   internal/tools.
-- Conventions: a method that mutates its receiver returns the new record; a method under a mutex is
-- one step; an error is a constructor, without its text unless a tool result or a prompt holds it.
-- What comes from outside the repository (the doublestar globs, compiled regular expressions,
-- symlinks and files on disk, the uuid source, the clock, the user's answers, the model's) is a
-- parameter, or a record of the answers it gives.
-- Bounds: a turn has fuel for seven calls of the provider: one, five retries and one recovery from
-- an overflow. A run has fuel for its rounds, and with a turn cap needs at most two for each turn
-- and two more. The walk to the root of a session tree takes one round more than there are entries,
-- which an acyclic index never uses up. The climb in resolveDeepestExisting takes one round more
-- than the path has bytes.
-- Not modelled: the terminal UI, subprocess transports, HTTP, the text of JSON, logs, and the events
-- inside a turn, since they are input and output or print what the parts do.
pub mod Agent
pub mod Ai
pub mod Anthropic
pub mod Base
pub mod Compact
pub mod Ext
pub mod Mcp
pub mod Obs
pub mod Perm
pub mod Session
pub mod Tools
pub mod Wire
pub mod Workset
