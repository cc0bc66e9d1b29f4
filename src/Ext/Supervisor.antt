-- ===== src/Ext/Supervisor.antt =====
-- internal/ext/supervisor.go: the life of an extension's process, its messages, and the strikes that
-- disable it.
pub mod Crashes
use mixi.Base.{
  ℕ, suc, Bool, true, false, not, ◌&&◌, Option, some, List, [], ◌∷◌, ◌++◌, ltb, if◌then◌else◌,
  length,
}
use mixi.Base.Bytes.{Bytes, codes}
use mixi.Ext.Extension.{
  Extension, ExtState, starting, ready, degraded, crashed, disabled, Reply, event_response,
  tool_result, resolve, fail_pending, strike_malformed, settle, set_state, enqueue, subscribed,
}

-- A decoded inbound message; `none` where its own fields do not decode.
pub data Envelope : Type 0 where
  event_response_msg : (id : ℕ) → Option Bytes → Envelope
  tool_result_msg : (id : ℕ) → Option Bytes → Envelope
  action_msg : Option Bytes → Envelope
  unknown_msg : Envelope

-- A line of the process's output, with the time at which a malformed one came.
pub data Line : Type 0 where
  line_too_long : Line
  read_error : Line
  malformed : (now : ℕ) → Line
  message : Envelope → Line

-- The extension, the actions that wait for the host's interface, and those that reached it.
pub record Host : Type 0 where
  pub ext : Extension
  pub bound : Bool
  pub act_buf : List Bytes
  pub dispatched : List Bytes
  pub notices : ℕ

abbrev pub act_buf_cap : ℕ
act_buf_cap = 64

abbrev pub on_ext : (Extension → Extension) → Host → Host
on_ext f h = record h { ext = f h.ext }

unfoldable pub take_action : Bytes → Host → Host
take_action a h =
    if h.bound
    then record h { dispatched = h.dispatched ++ a ∷ [] }
    else if ltb (length h.act_buf) act_buf_cap
    then record h { act_buf = h.act_buf ++ a ∷ [] }
    else h

unfoldable pub route : Envelope → Host → Host
route (event_response_msg id (some r)) h = on_ext (resolve id (event_response r)) h
route (tool_result_msg id (some r)) h = on_ext (resolve id (tool_result r)) h
route (action_msg (some a)) h = take_action a h
route _ h = h

-- disable: the notice goes out before the state changes
unfoldable pub disable : Host → Host
disable h = record h { ext = set_state disabled h.ext; notices = suc h.notices }

-- a malformed line: the loop ends when it is one too many
abbrev pub struck : (Host → Host) → Bool × Extension → Host → Host
struck more (true, e) h = disable (record h { ext = e })
struck more (false, e) h = more (record h { ext = e })

-- readLoop, over the lines that come before the process dies
unfoldable pub read_loop : ℕ → List Line → Host → Host
read_loop window [] h = h
read_loop window (line_too_long ∷ ls) h = disable h
read_loop window (read_error ∷ ls) h = h
read_loop window (malformed now ∷ ls) h =
    struck (read_loop window ls) (strike_malformed window now h.ext) h
read_loop window (message m ∷ ls) h = read_loop window ls (route m h)

-- One incarnation: whether it got as far as a hello that is adopted, what it wrote after, and
-- whether it lasted as long as counts for stable.
pub record Incarnation : Type 0 where
  pub spawned : Bool
  pub adopted : Bool
  pub lines : List Line
  pub stable : Bool

abbrev pub session_start : Bytes
session_start = codes "session_start"

-- a restart announces the session again
abbrev announced : Host → Host
announced h =
    if h.bound && subscribed session_start h.ext
    then on_ext (λ e. (enqueue session_start e).1) h
    else h

-- runOnce
unfoldable pub run_once : ℕ → Incarnation → Host → Host
run_once window i h =
    let begun = on_ext (λ e. record e { state = starting; block_strikes = 0 }) h in
    if not i.spawned
    then h
    else if not i.adopted
    then begun
    else read_loop window i.lines (announced (on_ext (λ e. settle (set_state ready e)) begun))

abbrev pub is_disabled : ExtState → Bool
is_disabled disabled = true
is_disabled _ = false

-- after a crash: disabled when there is no backoff left for it
abbrev pub crashed_times : ℕ → ℕ → Host → Host
crashed_times backoffs crashes h =
    if ltb backoffs crashes
    then disable (on_ext settle h)
    else on_ext (λ e. set_state crashed (settle e)) h

-- runOnce and failPending
unfoldable pub incarnated : ℕ → Incarnation → Host → Host
incarnated window i h = on_ext fail_pending (run_once window i h)

-- what follows an incarnation, and the loop goes on with `rest` unless the extension is disabled
abbrev pub judged : ℕ → ℕ → (Host → Host) → Host → Host
judged backoffs crashes rest ran =
    let after = crashed_times backoffs crashes ran in
    if is_disabled ran.ext.state
    then on_ext settle ran
    else if is_disabled after.ext.state
    then after
    else rest after

abbrev pub crashes_after : Incarnation → ℕ → ℕ
crashes_after i crashes = suc (if i.stable then 0 else crashes)

-- The loop of supervise over the incarnations, with `backoffs` waits between them.
unfoldable pub supervise : ℕ → ℕ → List Incarnation → ℕ → Host → Host
supervise window backoffs [] crashes h = h
supervise window backoffs (i ∷ is) crashes h =
    judged backoffs (crashes_after i crashes)
      (supervise window backoffs is (crashes_after i crashes)) (incarnated window i h)
