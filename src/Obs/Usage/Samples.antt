-- ===== src/Obs/Usage/Samples.antt =====
-- internal/obs/usage.go: two turns.
use mixi.Base.{refl, false, List, [], ◌∷◌, arith}
use mixi.Base.Bytes.{codes}
use mixi.Ai.{Usage, assistant_message, stop}
use mixi.Agent.Messages.{AgentMessage, model_message}
use mixi.Agent.Events.{turn_start, message_end}
use mixi.Obs.Usage.{new_tracker}
use mixi.Obs.Usage.Totals.{
  Told, event_seen, turn_recorded, tell_all, IsValid, sum_models, sum_turns, tell_all-IsValid,
}

abbrev used : Usage
used = record { input = 3; output = 2; cache_read = 1; cache_write = 0; total = 6 }

abbrev answered : AgentMessage
answered =
    model_message
      (assistant_message (record {
        content = [];
        api = [];
        provider = codes "p";
        model = codes "m";
        response_model = [];
        response_id = [];
        usage = used;
        stop_reason = stop;
        error_message = [];
        timestamp = 0;
      }))
      false

new-IsValid : IsValid new_tracker
unfolding sum_models sum_turns
new-IsValid = (
  record { input = refl; output = refl; cache_read = refl; cache_write = refl; total = refl },
  omega arith,
)

abbrev told : List Told
told =
    event_seen 0 (turn_start 1)
    ∷ event_seen 1 (message_end answered)
    ∷ turn_recorded 2 (codes "p/m") used
    ∷ []

tell_all-IsValid_example : IsValid (tell_all told new_tracker)
tell_all-IsValid_example = tell_all-IsValid told new_tracker new-IsValid
