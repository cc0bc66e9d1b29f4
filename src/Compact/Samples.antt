-- ===== src/Compact/Samples.antt =====
-- internal/compact: a short session, cut and summarized.
mod Bridge
use mixi.Base.Bytes.{bytes_eq}
use mixi.Compact.Compactor.{compact, summary_of}
use mixi.Compact.FileLists.{merge_file_lists, insert_all, remove_all, insert_key, member}
use mixi.Session.Ids.{new_entry_id}
use mixi.Session.Tree.{add, fill_base, has, next_leaf, walk, find, path_to_root}
use mixi.Session.MemStore.{append}
use mixi.Compact.Tokens.{
  estimate_entry, estimate_message, estimate_chars, content_chars, estimate_path, anchored,
}
use mixi.Compact.Cut.{
  last_compaction, cut_from, seek_recent, back_to_valid, valid_cut, split_at, is_user_message,
  over_settings, is_settings_entry, seek_user, index_of,
}
use mixi.Session.Tree.{path_to_root}
use mixi.Session.MemStore.{Draw, MemStore}
use mixi.Session.MemStore.History.{IsTree, IsFresh}
use mixi.Compact.Compactor.{Compactor, Request, CompactError, summarize_history, compact}
use mixi.Compact.Compactor.Appended.{compact_failure, compact_success}
use mixi.Base.{◌≤◌, ◌<◌, ◌≡◌, refl, inr, true, false, List, [], ◌∷◌, arith, drop, ◌⊎◌, inl, some}
use mixi.Base.Bytes.{Bytes, codes, bytes_eq}
use mixi.Ai.{Message, user_message, assistant_message, tool_result_message, text_content, stop}
use mixi.Session.Entry.{Entry, FileLists, Body, message, model_change, compaction}
use mixi.Compact.Tokens.{estimate_entry, sum_of}
use mixi.Compact.Cut.{CutPlan, PlanError, nothing_to_compact, plan_cut, at, after, is_user_message}
use mixi.Compact.Cut.Bounds.{resumes}
use mixi.Compact.Cut.Plans.{
  prev_idx, plan_cut-window, plan_cut-keep_recent, plan_cut-resumes, plan_cut-split_turn,
}
use mixi.Compact.FileLists.{merge_file_lists, member, merge_file_lists-member}

abbrev said : Bytes → Message
said text = user_message (record { content = text_content text [] ∷ []; timestamp = 0 })

abbrev answered : Bytes → Message
answered text = assistant_message (record {
  content = text_content text [] ∷ [];
  api = [];
  provider = [];
  model = [];
  response_model = [];
  response_id = [];
  usage = record { input = 0; output = 0; cache_read = 0; cache_write = 0; total = 0 };
  stop_reason = stop;
  error_message = [];
  timestamp = 0;
})

abbrev result : Bytes → Message
result text = tool_result_message (record {
  tool_call_id = [];
  tool_name = [];
  content = text_content text [] ∷ [];
  details = [];
  is_error = false;
  timestamp = 0;
})

abbrev entry : Bytes → Body → Entry
entry id body = record { id = id; parent = []; timestamp = []; body = body }

-- Two turns, the second of which has two answers of the model
abbrev path : List Entry
path =
    entry (codes "1") (message (said (codes "abcd")) false)
    ∷ entry (codes "2") (message (answered (codes "abcd")) false)
    ∷ entry (codes "3") (message (said (codes "abcd")) false)
    ∷ entry (codes "4") (model_change [] [])
    ∷ entry (codes "5") (message (answered (codes "abcd")) false)
    ∷ entry (codes "6") (message (result (codes "abcd")) false)
    ∷ []

abbrev no_files : FileLists
no_files = record { read_files = []; modified_files = [] }

abbrev split_plan : CutPlan
split_plan = record {
  window_start = 0;
  cut_idx = 3;
  split_turn = true;
  turn_start_idx = 2;
  prev_summary = [];
  prev_details = no_files;
}

-- One token is in the tool result, and the cut goes back over its call and the model's change.
cuts : plan_cut path 1 ≡ inr split_plan
unfolding plan_cut mixi.Compact.Cut.last_compaction mixi.Compact.Cut.cut_from
    mixi.Compact.Cut.seek_recent estimate_entry mixi.Compact.Tokens.estimate_message
    mixi.Compact.Tokens.estimate_chars mixi.Compact.Tokens.content_chars
    mixi.Compact.Cut.back_to_valid mixi.Compact.Cut.valid_cut mixi.Compact.Cut.over_settings
    mixi.Compact.Cut.split_at mixi.Compact.Cut.is_settings_entry is_user_message
    mixi.Compact.Cut.seek_user
cuts = refl

plan_cut-resumes_example : resumes (drop 3 path) ≡ true
plan_cut-resumes_example = plan_cut-resumes path 1 split_plan cuts

abbrev lists : FileLists
lists = record { read_files = codes "a" ∷ codes "b" ∷ []; modified_files = codes "c" ∷ [] }

merges :
    merge_file_lists lists (codes "c" ∷ []) (codes "a" ∷ [])
    ≡ record { read_files = codes "b" ∷ []; modified_files = codes "a" ∷ codes "c" ∷ [] }
unfolding merge_file_lists mixi.Compact.FileLists.remove_all mixi.Compact.FileLists.insert_all
    mixi.Compact.FileLists.insert_key bytes_eq mixi.Compact.FileLists.bytes_lt member
merges = refl

abbrev first : Entry
first = entry (codes "1") (message (said (codes "abcd")) false)

abbrev second : Entry
second = record (entry (codes "2") (message (answered (codes "abcd")) false)) { parent = codes "1" }

abbrev store : MemStore
store = record {
  header = record { version = 1; id = []; timestamp = []; cwd = []; parent_session = [] };
  index = record { entries = second ∷ first ∷ []; leaf_id = codes "2" };
  closed = false;
}

store-IsTree : IsTree store.index
unfolding find bytes_eq
store-IsTree = record {
  rooted = ((λ q. cc q), refl, inr (first, refl), ((λ q. cc q), refl, inl refl, tt));
  leaf_known = inr (second, refl);
}

abbrev draw : Draw
draw = record {
  now = codes "noon";
  v4 = codes "v4";
  uuids = some (codes "3") ∷ [];
  marshals = λ e. true;
}

draw-IsFresh : (x : Entry) → IsFresh draw x store
unfolding mixi.Session.Tree.has mixi.Session.Tree.find bytes_eq mixi.Session.Tree.fill_base
    mixi.Session.Ids.new_entry_id
draw-IsFresh x = record { not_taken = refl; not_empty = λ q. cc q }

abbrev compactor : Bytes ⊎ Bytes → Compactor
compactor answer = record {
  prompts = record {
    summarization = [];
    update_summarization = [];
    turn_prefix = [];
    pinned_exclusion_note = [];
  };
  summarize = λ n conversation prompt max. answer;
  keep_recent = 1;
  reserve = 0;
  max_output = 0;
}

abbrev request : Request
request = record { focus = []; read = []; written = [] }

abbrev summary_entry : Entry
summary_entry = record {
  id = codes "3";
  parent = codes "2";
  timestamp = codes "noon";
  body = compaction (codes "sum") (codes "2") 2 no_files;
}

old_path : path_to_root store.index store.index.leaf_id ≡ some (first ∷ second ∷ [])
unfolding path_to_root mixi.Session.Tree.walk bytes_eq mixi.Session.Tree.find
old_path = refl

refused :
    compact (compactor (inl (codes "busy"))) draw request store
    ≡ some (inl (summarize_history (codes "busy")), store)
unfolding compact path_to_root mixi.Session.Tree.walk bytes_eq mixi.Session.Tree.find plan_cut
    mixi.Compact.Cut.last_compaction mixi.Compact.Cut.cut_from mixi.Compact.Cut.seek_recent
    estimate_entry mixi.Compact.Tokens.estimate_message mixi.Compact.Tokens.estimate_chars
    mixi.Compact.Tokens.content_chars mixi.Compact.Cut.back_to_valid mixi.Compact.Cut.valid_cut
    mixi.Compact.Compactor.summary_of
refused = refl

compact_failure_example : store ≡ store
compact_failure_example =
    compact_failure draw store (compactor (inl (codes "busy"))) request (first ∷ second ∷ [])
      (summarize_history (codes "busy")) store old_path refused

abbrev new_store : MemStore
new_store = record store {
  index = record { entries = summary_entry ∷ second ∷ first ∷ []; leaf_id = codes "3" };
}

summarized :
    compact (compactor (inr (codes "sum"))) draw request store ≡ some (inr summary_entry, new_store)
unfolding plan_cut last_compaction cut_from seek_recent back_to_valid valid_cut split_at
    is_user_message over_settings is_settings_entry seek_user index_of estimate_entry
    estimate_message estimate_chars content_chars estimate_path anchored append add fill_base has
    next_leaf walk find path_to_root new_entry_id merge_file_lists insert_all remove_all insert_key
    member compact summary_of bytes_eq
summarized = refl

compact_success_example :
    path_to_root new_store.index new_store.index.leaf_id
    ≡ some (first ∷ second ∷ summary_entry ∷ [])
compact_success_example =
    compact_success draw store (compactor (inr (codes "sum"))) request (first ∷ second ∷ [])
      summary_entry new_store store-IsTree draw-IsFresh old_path summarized
