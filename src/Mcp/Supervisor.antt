-- ===== src/Mcp/Supervisor.antt =====
-- internal/mcp/supervisor.go: the life cycle of one server, as the steps that its supervisor takes.
pub mod Lifecycle
use mixi.Base.{
  ℕ, suc, ◌-◌, ◌≡◌, ◌⊎◌, Bool, true, false, ◌||◌, Option, none, some, List, [], ◌∷◌, ltb, leb, ◌==◌,
  if◌then◌else◌,
}

-- internal/mcp/manager.go
pub data State : Type 0 where
  configured initializing ready restarting failed closed : State

abbrev pub max_strikes : ℕ
max_strikes = 3

-- A server as its supervisor sees it. `settled` is whether the channel is closed that WaitInitial
-- waits for, and `uptime` how long the server has been ready.
pub record Server : Type 0 where
  pub state : State
  pub strikes : ℕ
  pub settled : Bool
  pub has_client : Bool

abbrev pub set_state : State → Server → Server
set_state st s = record s { state = st }

abbrev pub settle : Server → Server
settle s = record s { settled = true }

-- fail
unfoldable pub fail : Server → Server
fail s = settle (set_state failed s)

-- what follows a strike: the end, or a restart after the backoff
unfoldable pub struck : Server → Server
struck s = if ltb max_strikes s.strikes then fail s else set_state restarting s

-- the handshake failed
abbrev pub strike_handshake : Server → Server
strike_handshake s = settle (record s { strikes = suc s.strikes })

unfoldable pub handshake_failed : Server → Server
handshake_failed s = struck (strike_handshake s)

-- the connection was lost, after an uptime that was stable or not
abbrev pub strike_lost : Bool → Server → Server
strike_lost stable s = record s {
  has_client = false;
  strikes = suc (if stable then 0 else s.strikes);
}

unfoldable pub connection_lost : (stable : Bool) → Server → Server
connection_lost stable s = struck (strike_lost stable s)

unfoldable pub became_ready : Server → Server
became_ready s = settle (set_state ready (record s { has_client = true }))

-- One step of supervise. `ctx_done` stands for the manager's context, which ends it where it waits.
pub data Step : Server → Server → Type 0 where
  start :
      (s : Server)
      → (s.state ≡ configured) ⊎ (s.state ≡ restarting)
      → Step s (set_state initializing s)
  no_transport : (s : Server) → s.state ≡ initializing → Step s (fail s)
  handshake_error : (s : Server) → s.state ≡ initializing → Step s (handshake_failed s)
  handshake_done : (s : Server) → s.state ≡ initializing → Step s (became_ready s)
  lost : (s : Server) (stable : Bool) → s.state ≡ ready → Step s (connection_lost stable s)
  ctx_done : (s : Server) → (s.state ≡ ready) ⊎ (s.state ≡ restarting) → Step s (set_state closed s)
  ctx_done_at_start :
      (s : Server)
      → (s.state ≡ configured) ⊎ (s.state ≡ restarting)
      → Step s (settle (set_state closed s))

pub data Reach (s : Server) : Server → Type 0 where
  here : Reach s s
  next : {t u : Server} → Reach s t → Step t u → Reach s u

-- sleepBackoff's index into the backoffs, of which there are `n`; `none` where Go panics
unfoldable pub backoff_index : ℕ → ℕ → Option ℕ
backoff_index strikes n =
    let idx = if leb n (strikes - 1) then n - 1 else strikes - 1 in
    if n == 0 || strikes == 0 then none else some idx

-- supervise, over what each attempt comes to
pub data Attempt : Type 0 where
  handshake_fails : Attempt
  serves : (stable : Bool) → Attempt

abbrev pub attempted : Attempt → Server → Server
attempted handshake_fails s = handshake_failed (set_state initializing s)
attempted (serves stable) s = connection_lost stable (became_ready (set_state initializing s))

abbrev pub is_failed : State → Bool
is_failed failed = true
is_failed _ = false

-- the loop, which a failed server leaves; each attempt is one turn of it
unfoldable pub supervise : List Attempt → Server → Server
supervise [] s = s
supervise (a ∷ rest) s =
    let t = attempted a s in let after = supervise rest t in if is_failed t.state then t else after
