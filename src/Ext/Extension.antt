-- ===== src/Ext/Extension.antt =====
-- internal/ext/extension.go: the handle of one extension. Each method is one step under its mutex; a
-- channel of capacity one that waits for a reply is the request's entry in `answered`.
pub mod Replies
use mixi.Base.{
  ℕ, suc, ◌-◌, Bool, true, false, ◌&&◌, ◌||◌, Option, none, some, List, [], ◌∷◌, ◌++◌, ltb, leb,
  ◌==◌, if◌then◌else◌, length, drop, any,
}
use mixi.Base.Bytes.{Bytes, codes, bytes_eq}

pub data ExtState : Type 0 where
  starting ready degraded crashed disabled : ExtState

abbrev pub queue_cap : ℕ
queue_cap = 256

abbrev pub max_block_strikes : ℕ
max_block_strikes = 3

abbrev pub max_malformed : ℕ
max_malformed = 10

-- One routed response: an event's, a tool's, or the error that the process died.
pub data Reply : Type 0 where
  event_response : Bytes → Reply
  tool_result : Bytes → Reply
  ext_gone : Reply

pub record Extension : Type 0 where
  pub state : ExtState
  pub subs : List Bytes
  pub next_id : ℕ
  pub pending : List ℕ
  pub answered : List (ℕ × Reply)
  pub block_strikes : ℕ
  pub malformed_at : List ℕ
  pub queue : List Bytes
  pub queue_drops : ℕ
  pub settled : Bool

abbrev pub new_extension : Extension
new_extension = record {
  state = starting;
  subs = [];
  next_id = 0;
  pending = [];
  answered = [];
  block_strikes = 0;
  malformed_at = [];
  queue = [];
  queue_drops = 0;
  settled = false;
}

unfoldable pub subscribed : Bytes → Extension → Bool
subscribed event e = any (bytes_eq (codes "*")) e.subs || any (bytes_eq event) e.subs

-- register: the new id
unfoldable pub register : Extension → ℕ × Extension
register e =
    (suc e.next_id, record e { next_id = suc e.next_id; pending = suc e.next_id ∷ e.pending })

unfoldable pub waits_for : ℕ → List ℕ → Bool
waits_for id [] = false
waits_for id (j ∷ js) = j == id || waits_for id js

-- delete(e.pending, id)
unfoldable pub without : ℕ → List ℕ → List ℕ
without id [] = []
without id (j ∷ js) = let rest = without id js in if j == id then rest else j ∷ rest

unfoldable pub resolve : ℕ → Reply → Extension → Extension
resolve id r e =
    if waits_for id e.pending
    then record e { pending = without id e.pending; answered = (id, r) ∷ e.answered }
    else e

unfoldable pub unregister : ℕ → Extension → Extension
unregister id e = record e { pending = without id e.pending }

unfoldable pub all_gone : List ℕ → List (ℕ × Reply) → List (ℕ × Reply)
all_gone [] answers = answers
all_gone (j ∷ js) answers = (j, ext_gone) ∷ all_gone js answers

unfoldable pub fail_pending : Extension → Extension
fail_pending e = record e { pending = []; answered = all_gone e.pending e.answered }

-- enqueue, which drops the oldest event of a full queue; whether it dropped one
unfoldable pub enqueue : Bytes → Extension → Bool × Extension
enqueue ev e =
    if ltb (length e.queue) queue_cap
    then (false, record e { queue = e.queue ++ ev ∷ [] })
    else (true, record e { queue = drop 1 e.queue ++ ev ∷ []; queue_drops = suc e.queue_drops })

-- drainQueue takes the oldest
unfoldable pub dequeue : Extension → Option Bytes × Extension
dequeue e = elim e.queue [ [] ↦ (none, e) | ev ∷ evs ↦ (some ev, record e { queue = evs }) ]

abbrev is_ready : ExtState → Bool
is_ready ready = true
is_ready _ = false

-- strikeBlocking
unfoldable pub strike_blocking : Extension → Bool × Extension
strike_blocking e =
    if leb max_block_strikes (suc e.block_strikes) && is_ready e.state
    then (true, record e { block_strikes = suc e.block_strikes; state = degraded })
    else (false, record e { block_strikes = suc e.block_strikes })

-- The times within the window before `now`; times are in nanoseconds and do not run backwards.
unfoldable pub within_window : ℕ → ℕ → List ℕ → List ℕ
within_window window now [] = []
within_window window now (t ∷ ts) =
    let rest = within_window window now ts in if ltb (now - t) window then t ∷ rest else rest

-- strikeMalformed, with the window that the source makes a minute
unfoldable pub strike_malformed : ℕ → ℕ → Extension → Bool × Extension
strike_malformed window now e =
    let times = within_window window now e.malformed_at ++ now ∷ [] in
    (ltb max_malformed (length times), record e { malformed_at = times })

abbrev pub settle : Extension → Extension
settle e = record e { settled = true }

abbrev pub set_state : ExtState → Extension → Extension
set_state st e = record e { state = st }
