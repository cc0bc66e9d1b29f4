-- ===== src/Workset/Samples.antt =====
-- internal/workset: a short conversation, projected and trimmed.
use mixi.Base.{
  ◌+◌, ◌*◌, ◌≤◌, ◌<◌, ◌≡◌, refl, inr, Bool, true, false, none, [], ◌∷◌, arith, length, drop,
}
use mixi.Base.Bytes.{codes, bytes_eq}
use mixi.Ai.{user_message, assistant_message, tool_result_message, text_content, stop}
use mixi.Agent.Messages.{AgentMessage, model_message}
use mixi.Compact.Tokens.{sum_of}
use mixi.Workset.Builder.{
  Cost, Builder, build, project, stale_notice, trim_tool_results, recent_turns_protected,
}
use mixi.Workset.Builder.Fits.{build-within}
use mixi.Workset.Builder.Protected.{assistants, trim_tool_results-recent}

abbrev asked : AgentMessage
asked = model_message (user_message (record { content = []; timestamp = 0 })) false

abbrev answered : AgentMessage
answered =
    model_message
      (assistant_message (record {
        content = [];
        api = [];
        provider = [];
        model = [];
        response_model = [];
        response_id = [];
        usage = record { input = 0; output = 0; cache_read = 0; cache_write = 0; total = 0 };
        stop_reason = stop;
        error_message = [];
        timestamp = 0;
      }))
      false

abbrev resulted : AgentMessage
resulted =
    model_message
      (tool_result_message (record {
        tool_call_id = codes "t";
        tool_name = codes "read";
        content = text_content (codes "text") [] ∷ [];
        details = [];
        is_error = false;
        timestamp = 0;
      }))
      false

-- ten tokens a message, in a window of fifty, and no compaction
abbrev small : Builder Bool
small = record {
  window = 50;
  reserve = 10;
  max_output = 10;
  now = 0;
  estimate = λ w msgs. 10 * length msgs;
  estimate_one = λ m. 10;
  state = λ w. record { summary = []; kept_from = 0; pinned = [] };
  stale = λ w. [];
  compact_now = none;
}

builds : build small true (asked ∷ answered ∷ []) ≡ (inr (asked ∷ answered ∷ []), true)
unfolding build project stale_notice bytes_eq
builds = refl

build-within_example :
    10 * 2 + sum_of (λ m. 10) (asked ∷ answered ∷ []) + (10 + 10)
    ≤ 50 + sum_of (λ m. 10) (asked ∷ answered ∷ [])
build-within_example =
    build-within small true (asked ∷ answered ∷ []) (asked ∷ answered ∷ []) true builds

abbrev limit : Cost
limit = record { charged = 0; credited = 0 }

few : assistants (resulted ∷ answered ∷ []) < recent_turns_protected
unfolding assistants
few = omega arith

trim_tool_results-recent_example :
    drop 2 (
      (trim_tool_results
        (λ m. 10)
        limit
        (asked ∷ resulted ∷ resulted ∷ answered ∷ [], record { charged = 40; credited = 0 })).0)
    ≡ resulted ∷ answered ∷ []
trim_tool_results-recent_example =
    trim_tool_results-recent (λ m. 10) limit (record { charged = 40; credited = 0 })
      (asked ∷ resulted ∷ []) (resulted ∷ answered ∷ []) few
