-- ===== src/Ai/Json/RoundTrip/Messages.antt =====
-- internal/ai/json.go: a message that was marshalled is read back.
use mixi.Ai.Json.Content.{unmarshal_slice}
use mixi.Ai.Json.Messages.{
  reason_text, reason_of, usage_fields, usage_of, user_fields, assistant_fields, tool_result_fields,
  marshal_message, message_of, unmarshal_message,
}
use mixi.Ai.Json.{object, Codec, ◌>>=◌, get, get_string, omit_string}
use mixi.Base.{ℕ, ◌≡◌, Bool, Option, some, List, [], ◌∷◌, ◌++◌, All}
use mixi.Base.Bytes.{Bytes, codes, bytes_eq}
use mixi.Ai.{
  Content, StopReason, Usage, AssistantMessage, UserMessage, ToolResultMessage, Message,
  user_message, assistant_message, tool_result_message,
}
use mixi.Ai.Json.RoundTrip.{
  NilOr, Reads, Back, IsRaw, string_back, number_back, boolean_back, string_compact, number_compact,
  boolean_compact, object_read, slice-Back,
}

module _ (c : Codec) (r : Reads c) where
  usage_back :
      (u : Usage)
      → (t : Bytes) × (c.object_text (usage_fields c u) ≡ some t)
        × r.IsCompact t
        × (c.parse t ≡ some (object (usage_fields c u)))
  unfolding usage_fields
  usage_back u = r.object_back (usage_fields c u) (
    number_compact c r _,
    (
      number_compact c r _,
      (number_compact c r _, (number_compact c r _, (number_compact c r _, tt))),
    ),
  )

  usage_read : (u : Usage) → usage_of c (usage_fields c u) ≡ some u
  unfolding usage_fields usage_of get bytes_eq
  usage_read u = simp (number_back c r)

  -- The arguments and details are JSON, and the stop reason is not one of the constants spelled out.
  abbrev pub IsRawMessage : Message → Type 0
  IsRawMessage (user_message m) = All (IsRaw c r) m.content
  IsRawMessage (assistant_message m) =
      All (IsRaw c r) m.content × (reason_of (reason_text m.stop_reason) ≡ m.stop_reason)
  IsRawMessage (tool_result_message m) = All (IsRaw c r) m.content × NilOr r.IsCompact m.details

  abbrev pub message_read : List (Bytes × Bytes) → Option Message
  message_read ms = get_string c (codes "role") ms >>= λ role. message_of c role ms

  user-Back :
      (m : UserMessage) (content : Bytes)
      → r.IsCompact content
      → unmarshal_slice c (some content) ≡ some m.content
      → Back c r (c.object_text (user_fields c m content)) (unmarshal_message c) (user_message m)
  unfolding unmarshal_message get bytes_eq
  user-Back m content k p =
      object_read c r _ _ _ (string_compact c r _, (k, (number_compact c r _, tt)))
        (simp (string_back c r, number_back c r, p))

  tool_result-Back :
      (id name : Bytes) (xs : List Content) (details : Bytes) (is_error : Bool) (timestamp : ℕ)
      (content : Bytes)
      → NilOr r.IsCompact details
      → r.IsCompact content
      → unmarshal_slice c (some content) ≡ some xs
      → let m : ToolResultMessage = record {
        tool_call_id = id;
        tool_name = name;
        content = xs;
        details = details;
        is_error = is_error;
        timestamp = timestamp;
      } in
        Back c r
          (c.object_text (tool_result_fields c m content))
          (unmarshal_message c)
          (tool_result_message m)
  unfolding unmarshal_message get bytes_eq
  tool_result-Back id name xs [] is_error timestamp content h k p =
      object_read c r _ _ _
        (
          string_compact c r _,
          (
            string_compact c r _,
            (string_compact c r _, (k, (boolean_compact c r _, (number_compact c r _, tt)))),
          ),
        )
        (simp (string_back c r, boolean_back c r, number_back c r, p))
  tool_result-Back id name xs (b ∷ details) is_error timestamp content h k p =
      object_read c r _ _ _
        (
          string_compact c r _,
          (
            string_compact c r _,
            (string_compact c r _, (k, (h, (boolean_compact c r _, (number_compact c r _, tt))))),
          ),
        )
        (simp (string_back c r, boolean_back c r, number_back c r, p))

  omit_string-All : (name s : Bytes) → All (λ m. r.IsCompact m.1) (omit_string c name s)
  omit_string-All name [] = tt
  omit_string-All name (b ∷ s) = (string_compact c r _, tt)

  both-All :
      (ms ns : List (Bytes × Bytes))
      → All (λ m. r.IsCompact m.1) ms
      → All (λ m. r.IsCompact m.1) ns
      → All (λ m. r.IsCompact m.1) (ms ++ ns)
  both-All [] ns h k = k
  both-All (m ∷ ms) ns (g, h) k = (g, both-All ms ns h k)

  module _ (api provider model : Bytes) (xs : List Content) (u : Usage) (reason : StopReason)
      (timestamp : ℕ) (content usage : Bytes) (k : r.IsCompact content)
      (p : unmarshal_slice c (some content) ≡ some xs) (l : r.IsCompact usage)
      (q : c.parse usage ≡ some (object (usage_fields c u)))
      (same : reason_of (reason_text reason) ≡ reason) where
    abbrev assistant : (response_model response_id error_message : Bytes) → AssistantMessage
    assistant response_model response_id error_message = record {
      content = xs;
      api = api;
      provider = provider;
      model = model;
      response_model = response_model;
      response_id = response_id;
      usage = u;
      stop_reason = reason;
      error_message = error_message;
      timestamp = timestamp;
    }

    abbrev spent : (error_message : Bytes) → List (Bytes × Bytes)
    spent error_message =
        (codes "usage", usage)
        ∷ (codes "stopReason", c.string_text (reason_text reason))
        ∷ omit_string c (codes "errorMessage") error_message

    assistant_fields-All :
        (response_model response_id error_message : Bytes)
        → All
            (λ m. r.IsCompact m.1)
            (assistant_fields c (assistant response_model response_id error_message) content usage)
    assistant_fields-All response_model response_id error_message = (
      string_compact c r _,
      (
        k,
        (
          string_compact c r _,
          (
            string_compact c r _,
            (
              string_compact c r _,
              both-All
                  ((omit_string c (codes "responseModel") response_model
                      ++ omit_string c (codes "responseId") response_id)
                    ++ spent error_message)
                  ((codes "timestamp", c.number_text timestamp) ∷ [])
                  (both-All _ (spent error_message)
                    (both-All (omit_string c (codes "responseModel") response_model) _
                      (omit_string-All _ response_model) (omit_string-All _ response_id))
                    (l, (string_compact c r _, omit_string-All _ error_message)))
                  (number_compact c r _, tt),
            ),
          ),
        ),
      ),
    )

    assistant-Back :
        (response_model response_id error_message : Bytes)
        → Back c r
            (c.object_text (
              assistant_fields c
                (assistant response_model response_id error_message)
                content
                usage))
            (unmarshal_message c)
            (assistant_message (assistant response_model response_id error_message))
    unfolding unmarshal_message get bytes_eq
    assistant-Back [] [] [] =
        object_read c r _ _ _ (assistant_fields-All [] [] [])
          (simp (string_back c r, number_back c r, p, q, usage_read, same))
    assistant-Back [] [] (b2 ∷ s2) =
        object_read c r _ _ _ (assistant_fields-All [] [] (b2 ∷ s2))
          (simp (string_back c r, number_back c r, p, q, usage_read, same))
    assistant-Back [] (b1 ∷ s1) [] =
        object_read c r _ _ _ (assistant_fields-All [] (b1 ∷ s1) [])
          (simp (string_back c r, number_back c r, p, q, usage_read, same))
    assistant-Back [] (b1 ∷ s1) (b2 ∷ s2) =
        object_read c r _ _ _ (assistant_fields-All [] (b1 ∷ s1) (b2 ∷ s2))
          (simp (string_back c r, number_back c r, p, q, usage_read, same))
    assistant-Back (b0 ∷ s0) [] [] =
        object_read c r _ _ _ (assistant_fields-All (b0 ∷ s0) [] [])
          (simp (string_back c r, number_back c r, p, q, usage_read, same))
    assistant-Back (b0 ∷ s0) [] (b2 ∷ s2) =
        object_read c r _ _ _ (assistant_fields-All (b0 ∷ s0) [] (b2 ∷ s2))
          (simp (string_back c r, number_back c r, p, q, usage_read, same))
    assistant-Back (b0 ∷ s0) (b1 ∷ s1) [] =
        object_read c r _ _ _ (assistant_fields-All (b0 ∷ s0) (b1 ∷ s1) [])
          (simp (string_back c r, number_back c r, p, q, usage_read, same))
    assistant-Back (b0 ∷ s0) (b1 ∷ s1) (b2 ∷ s2) =
        object_read c r _ _ _ (assistant_fields-All (b0 ∷ s0) (b1 ∷ s1) (b2 ∷ s2))
          (simp (string_back c r, number_back c r, p, q, usage_read, same))

  -- A message that is marshalled is read back as it was. The conditions are that encoding/json reads
  -- back what it wrote, that raw JSON in the message is compact, no call has nil arguments, and the
  -- stop reason is not a constant's text in another guise.
  pub message-Back :
      (m : Message) → IsRawMessage m → Back c r (marshal_message c m) (unmarshal_message c) m
  unfolding marshal_message
  message-Back (user_message m) h =
      let (t, e, k, p) = slice-Back c r m.content h in
      let (u, f, l, q) = user-Back m t k p in (u, simp (e, f), l, q)
  message-Back (assistant_message m) (h, same) =
      let (t, e, k, p) = slice-Back c r m.content h in
      let (v, g, n, o) = usage_back m.usage in
      let (u, f, l, q) =
        assistant-Back m.api m.provider m.model m.content m.usage m.stop_reason m.timestamp t v k p
          n o same m.response_model m.response_id m.error_message in
      (u, simp (e, g, f), l, q)
  message-Back (tool_result_message m) (h, d) =
      let (t, e, k, p) = slice-Back c r m.content h in
      let (u, f, l, q) =
        tool_result-Back m.tool_call_id m.tool_name m.content m.details m.is_error m.timestamp t d k
          p in
      (u, simp (e, f), l, q)
