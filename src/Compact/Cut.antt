-- ===== src/Compact/Cut.antt =====
-- internal/compact/compact.go, planCut: where a session path is cut. An index of -1 is `none`.
pub mod Bounds
pub mod Plans
use mixi.Base.{
  ℕ, zero, suc, ◌+◌, ◌⊎◌, inl, inr, Bool, true, false, not, ◌&&◌, ◌||◌, Option, none, some, List,
  [], ◌∷◌, ltb, leb, if◌then◌else◌, length, get_elem?, any,
}
use mixi.Base.Bytes.{Bytes, bytes_eq}
use mixi.Ai.{Message, Role, msg_role, user, assistant, tool_result}
use mixi.Session.Entry.{
  Entry, FileLists, message, model_change, thinking_level_change, active_tools_change, compaction,
  branch_summary, custom, custom_message,
}
use mixi.Compact.Tokens.{estimate_entry}

pub record CutPlan : Type 0 where
  pub window_start : ℕ
  pub cut_idx : ℕ
  pub split_turn : Bool
  pub turn_start_idx : ℕ
  pub prev_summary : Bytes
  pub prev_details : FileLists

pub data PlanError : Type 0 where
  nothing_to_compact : PlanError
  previous_not_on_path : (first_kept_entry_id : Bytes) → PlanError

abbrev is_tool_result : Role → Bool
is_tool_result user = false
is_tool_result assistant = false
is_tool_result tool_result = true

abbrev is_user : Role → Bool
is_user user = true
is_user assistant = false
is_user tool_result = false

unfoldable pub valid_cut : Entry → Bool
valid_cut e = elim e.body [
  | message m pinned ↦ not (is_tool_result (msg_role m))
  | custom_message t content display details pinned ↦ true
  | branch_summary from summary details ↦ true
  | _ ↦ false
]

unfoldable pub is_settings_entry : Entry → Bool
is_settings_entry e = elim e.body [
  | model_change provider model ↦ true
  | thinking_level_change level ↦ true
  | active_tools_change names ↦ true
  | custom t content ↦ true
  | _ ↦ false
]

unfoldable pub is_user_message : Entry → Bool
is_user_message e = elim e.body [ message m pinned ↦ is_user (msg_role m) | _ ↦ false ]

abbrev is_pinned : Entry → Bool
is_pinned e = elim e.body [
  | message m pinned ↦ pinned
  | custom_message t content display details pinned ↦ pinned
  | _ ↦ false
]

unfoldable pub any_pinned : List Entry → Bool
any_pinned es = any is_pinned es

abbrev pub bump : Option ℕ → Option ℕ
bump none = none
bump (some i) = some (suc i)

unfoldable pub index_of : List Entry → Bytes → Option ℕ
index_of [] id = none
index_of (e ∷ es) id = let rest = bump (index_of es id) in if bytes_eq e.id id then some 0 else rest

-- A test and an estimate of path[i]; planCut reads no index out of range.
abbrev pub at : (Entry → Bool) → List Entry → ℕ → Bool
at p path i = elim (get_elem? path i) [ none ↦ false | some e ↦ p e ]

abbrev pub cost_at : List Entry → ℕ → ℕ
cost_at path i = elim (get_elem? path i) [ none ↦ 0 | some e ↦ estimate_entry e ]

-- The last compaction entry: its index, summary, first kept id and lists; `n` entries are left.
pub record Previous : Type 0 where
  pub idx : ℕ
  pub summary : Bytes
  pub first_kept_entry_id : Bytes
  pub details : FileLists

abbrev pub as_previous : ℕ → Entry → Option Previous
as_previous i e = elim e.body [
  | compaction summary first before lists ↦
      some (record { idx = i; summary = summary; first_kept_entry_id = first; details = lists })
  | _ ↦ none
]

abbrev previous_or : Option Previous → Option Entry → ℕ → Option Previous
previous_or rest none i = rest
previous_or rest (some e) i = elim (as_previous i e) [ none ↦ rest | some p ↦ some p ]

unfoldable pub last_compaction : List Entry → ℕ → Option Previous
last_compaction path zero = none
last_compaction path (suc i) = previous_or (last_compaction path i) (get_elem? path i) i

-- for i := len - 1; i > windowStart; i--: the entries from `i` on hold keepRecent tokens
unfoldable pub seek_recent : List Entry → ℕ → ℕ → ℕ → ℕ → Option ℕ
seek_recent path keep start acc zero = none
seek_recent path keep start acc (suc i) =
    let rest = seek_recent path keep start (acc + cost_at path i) i in
    if ltb start i then (if leb keep (acc + cost_at path i) then some i else rest) else none

unfoldable pub back_to_valid : List Entry → ℕ → ℕ → ℕ
back_to_valid path start zero = zero
back_to_valid path start (suc c) =
    let rest = back_to_valid path start c in
    if ltb start (suc c) && not (at valid_cut path (suc c)) then rest else suc c

abbrev pub after : Option ℕ → ℕ → Bool
after none i = true
after (some p) i = ltb p i

unfoldable pub over_settings : List Entry → ℕ → Option ℕ → ℕ → ℕ
over_settings path start prev zero = zero
over_settings path start prev (suc c) =
    let rest = over_settings path start prev c in
    if ltb start c && after prev c && at is_settings_entry path c then rest else suc c

-- for i := cut - 1; i >= windowStart; i--
unfoldable pub seek_user : List Entry → ℕ → ℕ → Option ℕ
seek_user path start zero = none
seek_user path start (suc i) =
    let rest = seek_user path start i in
    if leb start i then (if at is_user_message path i then some i else rest) else none

abbrev pub no_lists : FileLists
no_lists = record { read_files = []; modified_files = [] }

-- The turn that the cut splits; one that opens at the window's start has no history before it.
abbrev turn_from : ℕ → Option ℕ → Option ℕ
turn_from start none = none
turn_from start (some t) = if ltb start t then some t else none

unfoldable pub split_at : List Entry → ℕ → ℕ → Option ℕ
split_at path start cut =
    if at is_user_message path cut then none else turn_from start (seek_user path start cut)

abbrev pub plan_at : List Entry → ℕ → Bytes → FileLists → ℕ → CutPlan
plan_at path start summary lists cut = record {
  window_start = start;
  cut_idx = cut;
  split_turn = elim (split_at path start cut) [ none ↦ false | some t ↦ true ];
  turn_start_idx = elim (split_at path start cut) [ none ↦ 0 | some t ↦ t ];
  prev_summary = summary;
  prev_details = lists;
}

-- The cut, from the window's start and the index of the previous compaction
unfoldable pub cut_from : List Entry → ℕ → ℕ → Option ℕ → Option ℕ
cut_from path keep start prev = elim (seek_recent path keep start 0 (length path)) [
  | none ↦ none
  | some c ↦
      let v = back_to_valid path start c in
      if leb v start || not (after prev v) then none else some (over_settings path start prev v)
]

abbrev pub planned : List Entry → ℕ → Bytes → FileLists → Option ℕ → PlanError ⊎ CutPlan
planned path start summary lists none = inl nothing_to_compact
planned path start summary lists (some cut) = inr (plan_at path start summary lists cut)

unfoldable pub plan_cut : List Entry → ℕ → PlanError ⊎ CutPlan
plan_cut path keep = elim (last_compaction path (length path)) [
  | none ↦ planned path 0 [] no_lists (cut_from path keep 0 none)
  | some p ↦ elim (index_of path p.first_kept_entry_id) [
    | none ↦ inl (previous_not_on_path p.first_kept_entry_id)
    | some start ↦ planned path start p.summary p.details (cut_from path keep start (some p.idx))
  ]
]
