-- ===== src/Compact/Samples/Bridge.antt =====
-- internal/compact/controller.go: the controller over the short session.
use mixi.Base.{◌≡◌, refl, ◌⊎◌, inl, true, false, none, some, [], ◌∷◌}
use mixi.Base.Bytes.{Bytes, codes, bytes_eq}
use mixi.Compact.Compactor.{Compactor}
use mixi.Compact.Compactor
use mixi.Session.Tree.{walk, find, path_to_root}
use mixi.Compact.Tokens.{
  estimate_entry, estimate_message, estimate_chars, content_chars, estimate_path, anchored,
}
use mixi.Compact.Cut.{
  last_compaction, cut_from, seek_recent, back_to_valid, valid_cut, split_at, is_user_message,
  over_settings, is_settings_entry, seek_user, index_of, plan_cut,
}
use mixi.Agent.Messages.{AgentMessage, model_message}
use mixi.Compact.Compactor.{CompactError, summarize_history}
use mixi.Compact.Controller.{Config, Controller, compact, kept_from, index_of_string, seek_string}
use mixi.Compact.Samples.{said, answered, store, draw, compactor, new_store}

abbrev config : Bytes ⊎ Bytes → Config
config answer = record {
  compactor = compactor answer;
  window = 100;
  reserve = 10;
  max_tokens = 10;
  enabled = true;
  print_set = λ turn files. none;
  parse_set = λ raw. none;
  custom_text = λ raw. raw;
}

abbrev controller : Controller
controller = record {
  store = store;
  set = none;
  msgs =
      model_message (said (codes "abcd")) false
      ∷ model_message (answered (codes "abcd")) false
      ∷ [];
  ids = codes "1" ∷ codes "2" ∷ [];
  pinned = 0 ∷ [];
  anchor_fresh = true;
  compacted_this_turn = false;
  projection = record { summary = []; kept_from = 0; pinned = [] };
}

abbrev compacted : Controller
compacted = record controller {
  store = new_store;
  anchor_fresh = false;
  compacted_this_turn = true;
  projection = record {
    summary = codes "sum";
    kept_from = 1;
    pinned = model_message (said (codes "abcd")) false ∷ [];
  };
}

fails :
    compact (config (inl (codes "busy"))) draw [] controller
    ≡ some (some (summarize_history (codes "busy")), controller)
unfolding compact plan_cut last_compaction cut_from seek_recent back_to_valid valid_cut split_at
    is_user_message over_settings is_settings_entry seek_user index_of estimate_entry
    estimate_message estimate_chars content_chars estimate_path anchored walk find path_to_root
    bytes_eq Compactor.compact Compactor.summary_of
fails = refl

abbrev heard : AgentMessage
heard = model_message (said (codes "more")) false

keeps : kept_from controller (codes "2") ≡ some 1
unfolding kept_from index_of_string seek_string bytes_eq
keeps = refl
