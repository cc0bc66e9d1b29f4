-- ===== src/Compact/Compactor.antt =====
-- internal/compact/compact.go, Compact: the window is summarized, and the session gets the entry
-- only if that succeeds. The prompts' texts are a parameter, and the summarizer, a model, is what
-- it answers to each of its calls.
pub mod Appended
use mixi.Base.{
  ℕ, ◌-◌, ◌*◌, ◌/◌, ◌⊎◌, inl, inr, Bool, ◌&&◌, Option, none, some, List, [], ◌∷◌, ◌++◌, ltb, ◌==◌,
  if◌then◌else◌, get_elem?, take, drop,
}
use mixi.Base.Bytes.{Bytes, codes, index}
use mixi.Session.Entry.{Entry, compaction}
use mixi.Session.Tree.{path_to_root}
use mixi.Session.MemStore.{Draw, StoreError, MemStore, append, filled}
use mixi.Compact.Tokens.{default_reserve_tokens, default_keep_recent_tokens, estimate_path}
use mixi.Compact.Cut.{CutPlan, PlanError, plan_cut, any_pinned}
use mixi.Compact.FileLists.{merge_file_lists}
use mixi.Compact.Serialize.{serialize_entries}

pub record Prompts : Type 0 where
  pub summarization : Bytes
  pub update_summarization : Bytes
  pub turn_prefix : Bytes
  pub pinned_exclusion_note : Bytes

-- A call's number, the conversation, the prompt and the token limit; an error or the summary
pub record Compactor : Type 0 where
  pub prompts : Prompts
  pub summarize : ℕ → Bytes → Bytes → ℕ → Bytes ⊎ Bytes
  pub keep_recent : ℕ
  pub reserve : ℕ
  pub max_output : ℕ

pub record Request : Type 0 where
  pub focus : Bytes
  pub read : List Bytes
  pub written : List Bytes

pub data CompactError : Type 0 where
  no_plan : PlanError → CompactError
  summarize_history : (message : Bytes) → CompactError
  summarize_turn_prefix : (message : Bytes) → CompactError
  append_entry : StoreError → CompactError

abbrev or_default : ℕ → ℕ → ℕ
or_default n d = if n == 0 then d else n

unfoldable pub summary_tokens : Compactor → ℕ
summary_tokens c =
    let room = or_default c.reserve default_reserve_tokens * 8 / 10 in
    if ltb 0 c.max_output && ltb c.max_output room then c.max_output else room

abbrev with_previous : Bytes → Bytes → Bytes
with_previous [] s = s
with_previous (b ∷ previous) s =
    codes "<previous-summary>\n" ++ (b ∷ previous) ++ codes "\n</previous-summary>\n\n" ++ s

unfoldable pub conversation_block : Bytes → Bytes → Bytes
conversation_block conversation previous =
    with_previous previous (codes "<conversation>\n" ++ conversation ++ codes "\n</conversation>")

abbrev with_focus : Bytes → Bytes → Bytes
with_focus base [] = base
with_focus base (b ∷ focus) = base ++ codes "\n\nAdditional focus: " ++ (b ∷ focus)

unfoldable pub assemble_prompt : Compactor → Bytes → Bytes → Bool → Bytes
assemble_prompt c base focus has_pinned =
    if has_pinned
    then with_focus base focus ++ codes "\n\n" ++ c.prompts.pinned_exclusion_note
    else with_focus base focus

abbrev base_prompt : Compactor → Bytes → Bytes
base_prompt c [] = c.prompts.summarization
base_prompt c (b ∷ previous) = c.prompts.update_summarization

-- path[i:j]
unfoldable pub slice : List Entry → ℕ → ℕ → List Entry
slice path i j = take (j - i) (drop i path)

abbrev history_end : CutPlan → ℕ
history_end p = if p.split_turn then p.turn_start_idx else p.cut_idx

abbrev first_summary : Compactor → Request → List Entry → CutPlan → Bytes ⊎ Bytes
first_summary c req path p =
    c.summarize 0
      (conversation_block (serialize_entries (slice path p.window_start (history_end p)))
        p.prev_summary)
      (assemble_prompt c (base_prompt c p.prev_summary) req.focus
        (any_pinned (take p.cut_idx path)))
      (summary_tokens c)

abbrev prefix_summary : Compactor → Request → List Entry → CutPlan → Bytes ⊎ Bytes
prefix_summary c req path p =
    c.summarize 1
      (conversation_block (serialize_entries (slice path p.turn_start_idx p.cut_idx)) [])
      (assemble_prompt c c.prompts.turn_prefix req.focus (any_pinned (take p.cut_idx path)))
      (summary_tokens c)

abbrev pub joined : Bytes → Bytes ⊎ Bytes → CompactError ⊎ Bytes
joined summary (inl err) = inl (summarize_turn_prefix err)
joined summary (inr prefix) = inr (summary ++ codes "\n---\n" ++ prefix)

abbrev pub with_prefix :
    Compactor → Request → List Entry → CutPlan → Bytes ⊎ Bytes → CompactError ⊎ Bytes
with_prefix c req path p (inl err) = inl (summarize_history err)
with_prefix c req path p (inr summary) =
    if p.split_turn then joined summary (prefix_summary c req path p) else inr summary

-- One call of the summarizer, or two where the cut splits a turn
unfoldable pub summary_of : Compactor → Request → List Entry → CutPlan → CompactError ⊎ Bytes
summary_of c req path p = with_prefix c req path p (first_summary c req path p)

-- The id of the first kept entry; the plan's cut is on the path.
abbrev pub id_at : List Entry → ℕ → Bytes
id_at path i = elim (get_elem? path i) [ none ↦ [] | some e ↦ e.id ]

abbrev pub entry_of : Request → List Entry → CutPlan → Bytes → Entry
entry_of req path p summary = record {
  id = [];
  parent = [];
  timestamp = [];
  body =
      compaction summary (id_at path p.cut_idx) (estimate_path path)
        (merge_file_lists p.prev_details req.read req.written);
}

abbrev pub stored :
    Draw → Entry → MemStore → Option StoreError × MemStore → (CompactError ⊎ Entry) × MemStore
stored d e s (none, s') = (inr (filled d e s), s')
stored d e s (some err, s') = (inl (append_entry err), s')

abbrev pub append_summary :
    Draw
    → Request
    → List Entry
    → CutPlan
    → MemStore
    → CompactError ⊎ Bytes
    → (CompactError ⊎ Entry) × MemStore
append_summary d req path p s (inl err) = (inl err, s)
append_summary d req path p s (inr summary) =
    stored d (entry_of req path p summary) s (append d (entry_of req path p summary) s)

abbrev pub carry_out :
    Compactor
    → Draw
    → Request
    → List Entry
    → MemStore
    → PlanError ⊎ CutPlan
    → (CompactError ⊎ Entry) × MemStore
carry_out c d req path s (inl err) = (inl (no_plan err), s)
carry_out c d req path s (inr p) = append_summary d req path p s (summary_of c req path p)

abbrev pub plan_for : Compactor → List Entry → PlanError ⊎ CutPlan
plan_for c path = plan_cut path (or_default c.keep_recent default_keep_recent_tokens)

abbrev pub on_path :
    Compactor → Draw → Request → MemStore → List Entry → (CompactError ⊎ Entry) × MemStore
on_path c d req s path = carry_out c d req path s (plan_for c path)

-- `none` where the walk to the root does not end
unfoldable pub compact :
    Compactor → Draw → Request → MemStore → Option ((CompactError ⊎ Entry) × MemStore)
compact c d req s = elim (path_to_root s.index s.index.leaf_id) [
  | none ↦ none
  | some path ↦ some (on_path c d req s path)
]
