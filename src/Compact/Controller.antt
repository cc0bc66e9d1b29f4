-- ===== src/Compact/Controller.antt =====
-- internal/compact/controller.go: the bridge between the loop and the session. It persists each
-- message, mirrors the conversation with the ids of its entries, and compacts on its triggers.
pub mod Mirror
pub mod Triggers
use mixi.Base.{
  ℕ, zero, suc, ◌+◌, ◌⊎◌, inl, inr, Bool, true, false, not, ◌||◌, Option, none, some, List, [], ◌∷◌,
  ◌++◌, ltb, leb, ◌==◌, if◌then◌else◌, length,
}
use mixi.Base.Bytes.{Bytes, codes, bytes_eq, index}
use mixi.Ai.{Message, assistant_message}
use mixi.Agent.Messages.{AgentMessage, model_message, branch_summary, custom_message}
use mixi.Session.Entry as Session
use mixi.Session.Tree.{path_to_root}
use mixi.Session.MemStore.{Draw, StoreError, MemStore, append, filled}
use mixi.Workset.Files.{
  WorkingSet, FileStamp, FileSystem, StaleFile, set_turn, snapshot, restore, lists, stale_list,
  new_set,
}
use mixi.Workset.Builder.{Builder, CompactionState, Built, build}
use mixi.Compact.Tokens.{
  estimate_context, estimate_context_pure, estimate_agent_message, message_usage,
}
use mixi.Compact.Cut.{nothing_to_compact}
use mixi.Compact.Compactor.{Compactor, Request, CompactError, no_plan}
use mixi.Compact.Compactor

-- What the controller is built with, and the text of JSON documents: the working set's snapshot,
-- and the content of a custom message.
pub record Config : Type 0 where
  pub compactor : Compactor
  pub window : ℕ
  pub reserve : ℕ
  pub max_tokens : ℕ
  pub enabled : Bool
  pub print_set : ℕ → List (Bytes × FileStamp) → Option Bytes
  pub parse_set : Bytes → Option (ℕ × List (Bytes × FileStamp))
  pub custom_text : Bytes → Bytes

-- The controller's own state, the session and the working set. `pinned` holds the indices that the
-- map sends to true, and `projection` is the state that the builder was handed.
pub record Controller : Type 0 where
  pub store : MemStore
  pub set : Option WorkingSet
  pub msgs : List AgentMessage
  pub ids : List Bytes
  pub pinned : List ℕ
  pub anchor_fresh : Bool
  pub compacted_this_turn : Bool
  pub projection : CompactionState

abbrev pub workset_custom_type : Bytes
workset_custom_type = codes "workingset"

abbrev pub entry_with : Session.Body → Session.Entry
entry_with b = record { id = []; parent = []; timestamp = []; body = b }

-- A usage total arrived with the message.
abbrev pub reports_usage : AgentMessage → Bool
reports_usage (model_message m excluded) = ltb 0 (message_usage m)
reports_usage _ = false

-- the id of the entry that was appended, "" when it was not
abbrev pub id_if_stored : Bytes → Option StoreError → Bytes
id_if_stored id none = id
id_if_stored id (some err) = []

abbrev pub persisted : Draw → AgentMessage → MemStore → Bytes × MemStore
persisted d (model_message m excluded) s =
    let e = entry_with (Session.message m false) in
    let (err, s') = append d e s in (id_if_stored (filled d e s).id err, s')
persisted d _ s = ([], s)

-- OnMessage
unfoldable pub on_message : Draw → AgentMessage → Controller → Controller
on_message d m c =
    let (id, s) = persisted d m c.store in
    record c {
      store = s;
      msgs = c.msgs ++ m ∷ [];
      ids = c.ids ++ id ∷ [];
      anchor_fresh = reports_usage m || c.anchor_fresh;
    }

-- estimate
unfoldable pub estimate : Controller → List AgentMessage → ℕ
estimate c ms = if c.anchor_fresh then estimate_context ms else estimate_context_pure ms

-- indexOfString, `none` for -1
unfoldable pub seek_string : List Bytes → Bytes → Option ℕ
seek_string [] s = none
seek_string (v ∷ vs) s =
    let rest = seek_string vs s in
    if bytes_eq v s then some 0 else elim rest [ none ↦ none | some i ↦ some (suc i) ]

unfoldable pub index_of_string : List Bytes → Bytes → Option ℕ
index_of_string vs s = if bytes_eq s [] then none else seek_string vs s

-- The first entry after `first_kept` on the path that the mirror knows.
abbrev known_or : Option ℕ → Option ℕ → Option ℕ
known_or (some i) rest = some i
known_or none rest = rest

unfoldable pub first_known : List Bytes → Bytes → Bool → List Session.Entry → Option ℕ
first_known ids first_kept seen [] = none
first_known ids first_kept seen (e ∷ es) =
    let after = first_known ids first_kept true es in
    let same = first_known ids first_kept seen es in
    if bytes_eq e.id first_kept
    then after
    else if seen
    then known_or (index_of_string ids e.id) same
    else same

abbrev pub or_length : Controller → Option ℕ → ℕ
or_length c none = length c.msgs
or_length c (some i) = i

abbrev on_path : Controller → Bytes → Option (List Session.Entry) → Option ℕ
on_path c first_kept none = none
on_path c first_kept (some path) = some (or_length c (first_known c.ids first_kept false path))

abbrev pub kept_at : Controller → Bytes → Option ℕ → Option ℕ
kept_at c first_kept (some i) = some i
kept_at c first_kept none = on_path c first_kept (path_to_root c.store.index c.store.index.leaf_id)

-- keptFromLocked; `none` where the walk to the root does not end
unfoldable pub kept_from : Controller → Bytes → Option ℕ
kept_from c first_kept = kept_at c first_kept (index_of_string c.ids first_kept)

unfoldable pub holds_index : List ℕ → ℕ → Bool
holds_index [] i = false
holds_index (j ∷ js) i = j == i || holds_index js i

-- the pinned ones of the messages from index `i`, of which `n` are looked at
unfoldable pub pinned_before : List ℕ → ℕ → ℕ → List AgentMessage → List AgentMessage
pinned_before pins i zero ms = []
pinned_before pins i (suc n) [] = []
pinned_before pins i (suc n) (m ∷ ms) =
    let rest = pinned_before pins (suc i) n ms in if holds_index pins i then m ∷ rest else rest

-- what a compaction entry says of itself
abbrev pub first_kept_of : Session.Body → Bytes
first_kept_of (Session.compaction summary first before details) = first
first_kept_of _ = []

abbrev pub summary_of : Session.Body → Bytes
summary_of (Session.compaction summary first before details) = summary
summary_of _ = []

abbrev pub installed : Session.Body → Option ℕ → Controller → Option Controller
installed b none c = none
installed b (some n) c = some (record c {
  projection = record {
    summary = summary_of b;
    kept_from = n;
    pinned = pinned_before c.pinned 0 n c.msgs;
  };
})

-- installCompactionState, of the body of a compaction entry
unfoldable pub install_compaction_state : Session.Body → Controller → Option Controller
install_compaction_state b c = installed b (kept_from c (first_kept_of b)) c

abbrev pub read_and_written : Option WorkingSet → List Bytes × List Bytes
read_and_written none = ([], [])
read_and_written (some w) = lists w

abbrev pub mark_compacted : Option Controller → Option (Option CompactError × Controller)
mark_compacted none = none
mark_compacted (some c) = some (none, record c { compacted_this_turn = true; anchor_fresh = false })

abbrev pub after_compact :
    Controller
    → Option ((CompactError ⊎ Session.Entry) × MemStore)
    → Option (Option CompactError × Controller)
after_compact c none = none
after_compact c (some (inl err, s)) = some (some err, record c { store = s })
after_compact c (some (inr e, s)) =
    mark_compacted (install_compaction_state e.body (record c { store = s }))

-- compact; `none` where a walk to the root does not end
unfoldable pub compact :
    Config → Draw → Bytes → Controller → Option (Option CompactError × Controller)
compact g d focus c =
    let (read, written) = read_and_written c.set in
    after_compact c (
      Compactor.compact g.compactor d (record { focus = focus; read = read; written = written })
        c.store)

-- the working set for the next turn, and its snapshot as an entry
abbrev pub save_set : Draw → Option Bytes → WorkingSet → Controller → Controller
save_set d none w c = record c { set = some w }
save_set d (some raw) w c = record c {
  set = some w;
  store = (append d (entry_with (Session.custom workset_custom_type raw)) c.store).1;
}

abbrev pub advance_set : Config → Draw → ℕ → Option WorkingSet → Controller → Controller
advance_set g d turn none c = c
advance_set g d turn (some w) c =
    let (raw, w') = snapshot g.print_set (set_turn (turn + 1) w) in save_set d raw w' c

-- an error other than that there is nothing to compact
abbrev pub real_error : Option CompactError → Option CompactError
real_error none = none
real_error (some (no_plan nothing_to_compact)) = none
real_error (some err) = some err

abbrev pub checked :
    Option (Option CompactError × Controller) → Option (Option CompactError × Controller)
checked none = none
checked (some (err, c)) = some (real_error err, c)

abbrev pub over_threshold : Config → Controller → Bool
over_threshold g c = not (leb (estimate_context c.msgs + g.reserve) g.window)

abbrev pub maybe_compact : Config → Draw → Controller → Option (Option CompactError × Controller)
maybe_compact g d c =
    if not g.enabled || not c.anchor_fresh
    then some (none, c)
    else if over_threshold g c
    then checked (compact g d [] c)
    else some (none, c)

-- AfterTurn, with the answers to the snapshot's append and to the compaction's
unfoldable pub after_turn :
    Config
    → (snapshot_draw compact_draw : Draw) → ℕ
    → Controller
    → Option (Option CompactError × Controller)
after_turn g d d' turn c =
    maybe_compact g d' (record (advance_set g d turn c.set c) { compacted_this_turn = false })

abbrev succeeded : Option (Option CompactError × Controller) → Option (Bool × Controller)
succeeded none = none
succeeded (some (none, c)) = some (true, c)
succeeded (some (some err, c)) = some (false, c)

-- OnContextOverflow
unfoldable pub on_context_overflow : Config → Draw → Controller → Option (Bool × Controller)
on_context_overflow g d c = if g.enabled then succeeded (compact g d [] c) else some (false, c)

-- compactForBuild
unfoldable pub compact_for_build : Config → Draw → Controller → Option (Bool × Controller)
compact_for_build g d c =
    if c.compacted_this_turn then some (false, c) else succeeded (compact g d [] c)

-- The loop of LoadHistory, with the last compaction entry met.
pub record History : Type 0 where
  pub msgs : List AgentMessage
  pub ids : List Bytes
  pub pinned : List ℕ
  pub anchor_fresh : Bool
  pub set : Option WorkingSet
  pub last : Option Session.Body

abbrev pub mirrored : AgentMessage → Bytes → Bool → History → History
mirrored m id pin h = record h {
  msgs = h.msgs ++ m ∷ [];
  ids = h.ids ++ id ∷ [];
  pinned = if pin then length h.msgs ∷ h.pinned else h.pinned;
}

abbrev or_same : Option WorkingSet → Option WorkingSet → Option WorkingSet
or_same none w = w
or_same (some v) w = some v

abbrev restore_set : Config → Bytes → Option WorkingSet → Option WorkingSet
restore_set g raw none = none
restore_set g raw (some w) = or_same (restore g.parse_set raw w) (some w)

unfoldable pub load_entry : Config → Session.Entry → History → History
load_entry g e h = elim e.body [
  | Session.message m pin ↦ record (mirrored (model_message m false) e.id pin h) {
    anchor_fresh = ltb 0 (message_usage m) || h.anchor_fresh;
  }
  | Session.custom_message t content display details pin ↦
      mirrored (custom_message (g.custom_text content) 0) e.id pin h
  | Session.branch_summary from summary details ↦ mirrored (branch_summary summary 0) e.id false h
  | Session.custom t content ↦
      if bytes_eq t workset_custom_type then record h { set = restore_set g content h.set } else h
  | Session.compaction summary first before details ↦ record h {
    last = some e.body;
    anchor_fresh = false;
  }
  | _ ↦ h
]

unfoldable pub load_entries : Config → List Session.Entry → History → History
load_entries g [] h = h
load_entries g (e ∷ es) h = load_entries g es (load_entry g e h)

abbrev pub with_history : History → Controller → Controller
with_history h c = record c {
  msgs = h.msgs;
  ids = h.ids;
  pinned = h.pinned;
  anchor_fresh = h.anchor_fresh;
  set = h.set;
}

abbrev install_last : Option Session.Body → Controller → Option Controller
install_last none c = some c
install_last (some b) c = install_compaction_state b c

abbrev no_history : Controller → History
no_history c = record {
  msgs = [];
  ids = [];
  pinned = [];
  anchor_fresh = false;
  set = c.set;
  last = none;
}

abbrev loaded : Config → Controller → Option (List Session.Entry) → Option Controller
loaded g c none = none
loaded g c (some path) =
    let h = load_entries g path (no_history c) in install_last h.last (with_history h c)

-- LoadHistory
unfoldable pub load_history : Config → Controller → Option Controller
load_history g c = loaded g c (path_to_root c.store.index c.store.index.leaf_id)

abbrev stale_of : FileSystem → Option WorkingSet → List StaleFile
stale_of fs none = []
stale_of fs (some w) = (stale_list fs w).0

-- a walk that does not end counts as a failure here
abbrev pub or_failed : Controller → Option (Bool × Controller) → Bool × Controller
or_failed c none = (false, c)
or_failed c (some r) = r

-- the builder that NewController wires
abbrev pub builder : Config → Draw → FileSystem → ℕ → Builder Controller
builder g d fs now = record {
  window = g.window;
  reserve = g.reserve;
  max_output = g.max_tokens;
  now = now;
  estimate = estimate;
  estimate_one = estimate_agent_message;
  state = λ (c : Controller). c.projection;
  stale = λ (c : Controller). stale_of fs c.set;
  compact_now = if g.enabled then some (λ c. or_failed c (compact_for_build g d c)) else none;
}

-- TransformContext
unfoldable pub transform_context :
    Config → Draw → FileSystem → ℕ → Controller → List AgentMessage → Built Controller
transform_context g d fs now c msgs = build (builder g d fs now) c msgs
