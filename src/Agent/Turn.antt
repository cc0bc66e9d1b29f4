-- ===== src/Agent/Turn.antt =====
-- internal/agent/loop.go, pumpStream and streamTurn: one assistant turn, with its retries. Events
-- are sent to nobody here, and the request's context, built afresh for each call, is the provider's
-- matter.
pub mod Retries
use mixi.Base.{
  ℕ, zero, suc, Bool, true, false, not, ◌&&◌, ◌||◌, Option, none, some, List, [], ◌∷◌, leb,
  if◌then◌else◌,
}
use mixi.Base.Bytes.{Bytes, codes}
use mixi.Ai.{
  AssistantMessage, StopReason, Usage, stop, length as cut_short, tool_use, error, aborted,
  unknown_reason,
}
use mixi.Agent.Retry.{RetryClass, fatal, retryable, overflow, classify_error, retry_max_attempts}

-- The events of a provider's stream that the loop tells apart
pub data StreamEvent : Type 0 where
  event_start : AssistantMessage → StreamEvent
  event_done : AssistantMessage → StreamEvent
  event_error : AssistantMessage → StreamEvent
  content_event : StreamEvent

-- What pumpStream has seen
pub record Pumped : Type 0 where
  pub final : Option AssistantMessage
  pub emitted_content : Bool

abbrev pump_event : Pumped → StreamEvent → Pumped
pump_event s (event_start m) = s
pump_event s (event_done m) = record s { final = some m }
pump_event s (event_error m) = record s { final = some m }
pump_event s content_event = record s { emitted_content = true }

unfoldable pub pump : Pumped → List StreamEvent → Pumped
pump s [] = s
pump s (e ∷ es) = pump (pump_event s e) es

pub record Final : Type 0 where
  pub message : AssistantMessage
  pub emitted_content : Bool

abbrev no_usage : Usage
no_usage = record { input = 0; output = 0; cache_read = 0; cache_write = 0; total = 0 }

-- The parts of the model that a message names
pub record Model : Type 0 where
  pub api : Bytes
  pub provider : Bytes
  pub id : Bytes

-- The message of a stream that ends without one; `err` is what ctx.Err says.
abbrev unfinished : Model → ℕ → Option Bytes → AssistantMessage
unfinished m now err = record {
  content = [];
  api = m.api;
  provider = m.provider;
  model = m.id;
  response_model = [];
  response_id = [];
  usage = no_usage;
  stop_reason = elim err [ none ↦ error | some e ↦ aborted ];
  error_message = elim err [
    | none ↦ codes "provider stream closed without Done/Error event"
    | some e ↦ e
  ];
  timestamp = now;
}

unfoldable pub pump_stream : Model → ℕ → Option Bytes → List StreamEvent → Final
pump_stream model now err es =
    let s = pump (record { final = none; emitted_content = false }) es in
    record {
      message = elim s.final [ none ↦ unfinished model now err | some m ↦ m ];
      emitted_content = s.emitted_content;
    }

-- What a turn meets: the stream of each of its calls and ctx.Err at its end, whether the overflow hook frees context,
-- and whether each sleep ends early, with the error it then gives.
pub record World : Type 0 where
  pub model : Model
  pub now : ℕ
  pub streams : ℕ → List StreamEvent
  pub ctx_error : ℕ → Option Bytes
  pub frees_context : Bool
  pub sleep_error : ℕ → Option Bytes

unfoldable pub reply : World → ℕ → Final
reply w n = pump_stream w.model w.now (w.ctx_error n) (w.streams n)

pub record Turned : Type 0 where
  pub message : AssistantMessage
  pub ok : Bool
  pub calls : ℕ

abbrev pub is_error : StopReason → Bool
is_error error = true
is_error stop = false
is_error cut_short = false
is_error tool_use = false
is_error aborted = false
is_error (unknown_reason text) = false

abbrev pub is_aborted : StopReason → Bool
is_aborted aborted = true
is_aborted stop = false
is_aborted cut_short = false
is_aborted tool_use = false
is_aborted error = false
is_aborted (unknown_reason text) = false

abbrev pub is_retryable : RetryClass → Bool
is_retryable retryable = true
is_retryable fatal = false
is_retryable overflow = false

abbrev pub is_overflow : RetryClass → Bool
is_overflow overflow = true
is_overflow fatal = false
is_overflow retryable = false

-- What one call leads to: the end, or another call, with the retries and whether recovery was tried
pub data Next : Type 0 where
  finish : AssistantMessage → (ok : Bool) → Next
  again : (attempt : ℕ) → (overflow_retried : Bool) → Next

abbrev pub cancelled : AssistantMessage → Option Bytes → ℕ → Bool → Next
cancelled m none attempt overflow_retried = again attempt overflow_retried
cancelled m (some e) attempt overflow_retried =
    finish (record m { stop_reason = aborted; error_message = e }) false

-- The rest of the loop's body, once recovery is not to be tried, or did not free anything
abbrev pub retry_or_stop : World → Final → ℕ → Bool → Next
retry_or_stop w f attempt overflow_retried =
    if not (is_retryable (classify_error f.message.error_message) && not f.emitted_content)
      || leb retry_max_attempts attempt
    then finish f.message false
    else cancelled f.message (w.sleep_error (suc attempt)) (suc attempt) overflow_retried

unfoldable pub after_reply : World → Final → ℕ → Bool → Next
after_reply w f attempt overflow_retried =
    if not (is_error f.message.stop_reason)
    then finish f.message (not (is_aborted f.message.stop_reason))
    else if is_overflow (classify_error f.message.error_message)
        && not f.emitted_content
        && not overflow_retried
    then (if w.frees_context then again attempt true else retry_or_stop w f attempt true)
    else retry_or_stop w f attempt overflow_retried

abbrev pub continue : Next → ℕ → (ℕ → Bool → Option Turned) → Option Turned
continue (finish m ok) n more = some (record { message = m; ok = ok; calls = suc n })
continue (again attempt overflow_retried) n more = more attempt overflow_retried

-- `n` calls have been made
unfoldable pub turn_loop : ℕ → World → ℕ → ℕ → Bool → Option Turned
turn_loop zero w n attempt overflow_retried = none
turn_loop (suc fuel) w n attempt overflow_retried =
    continue (after_reply w (reply w n) attempt overflow_retried) n (turn_loop fuel w (suc n))

-- One call, five retries and one recovery
abbrev pub max_calls : ℕ
max_calls = 7

unfoldable pub stream_turn : World → Option Turned
stream_turn w = turn_loop max_calls w 0 0 false
