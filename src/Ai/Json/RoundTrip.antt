-- ===== src/Ai/Json/RoundTrip.antt =====
-- internal/ai/json.go: what is marshalled is read back.
pub mod Messages
use mixi.Ai.Json.Content.{
  marshal_content, unmarshal_content, marshal_each, unmarshal_each, marshal_slice, unmarshal_slice,
}
use mixi.Ai.Json.Messages.{
  reason_text, reason_of, usage_fields, usage_of, user_fields, assistant_fields, tool_result_fields,
  marshal_message, message_of, unmarshal_message,
}
use mixi.Base.{ℕ, ◌≡◌, Bool, true, false, Option, some, List, [], ◌∷◌, All, refl}
use mixi.Base.Bytes.{Bytes, bytes_eq, codes}
use mixi.Ai.{
  Content, text_content, image_content, thinking_content, tool_call, Message, Usage, user_message,
  StopReason, assistant_message, tool_result_message, UserMessage, ToolResultMessage,
  AssistantMessage,
}
use mixi.Ai.Json.{
  ◌>>=◌, Codec, null, boolean, number, string, array, object, get, fields, get_string,
}

-- A text that is JSON without idle space, as Marshal writes it; empty for a nil RawMessage.
abbrev pub NilOr : (Bytes → Type 0) → Bytes → Type 0
NilOr P [] = Unit
NilOr P (b ∷ s) = P (b ∷ s)

-- What Marshal writes is compact and is read back, as long as the texts in it are compact.
pub record Reads (c : Codec) : Type 1 where
  pub IsCompact : Bytes → Type 0
  pub null_back : IsCompact c.null_text × (c.parse c.null_text ≡ some null)
  pub boolean_back :
      (b : Bool) → IsCompact (c.boolean_text b) × (c.parse (c.boolean_text b) ≡ some (boolean b))
  pub number_back :
      (n : ℕ) → IsCompact (c.number_text n) × (c.parse (c.number_text n) ≡ some (number n))
  pub string_back :
      (s : Bytes) → IsCompact (c.string_text s) × (c.parse (c.string_text s) ≡ some (string s))
  pub array_back :
      (ts : List Bytes)
      → All IsCompact ts
      → (t : Bytes) × (c.array_text ts ≡ some t) × IsCompact t × (c.parse t ≡ some (array ts))
  pub object_back :
      (ms : List (Bytes × Bytes))
      → All (λ m. IsCompact m.1) ms
      → (t : Bytes) × (c.object_text ms ≡ some t) × IsCompact t × (c.parse t ≡ some (object ms))

module _ (c : Codec) (r : Reads c) where
  -- what is written, and what reads it back
  abbrev pub Back : {A : Type 0} → Option Bytes → (Bytes → Option A) → A → Type 0
  Back written unmarshal a =
      (t : Bytes) × (written ≡ some t) × r.IsCompact t × (unmarshal t ≡ some a)

  -- The arguments of a call are JSON.
  abbrev pub IsRaw : Content → Type 0
  IsRaw (tool_call id name [] sig) = ⊥
  IsRaw (tool_call id name (b ∷ args) sig) = r.IsCompact (b ∷ args)
  IsRaw _ = Unit

  pub string_back : (s : Bytes) → c.parse (c.string_text s) ≡ some (string s)
  string_back s = (r.string_back s).1

  pub number_back : (n : ℕ) → c.parse (c.number_text n) ≡ some (number n)
  number_back n = (r.number_back n).1

  pub boolean_back : (b : Bool) → c.parse (c.boolean_text b) ≡ some (boolean b)
  boolean_back b = (r.boolean_back b).1

  pub string_compact : (s : Bytes) → r.IsCompact (c.string_text s)
  string_compact s = (r.string_back s).0

  pub number_compact : (n : ℕ) → r.IsCompact (c.number_text n)
  number_compact n = (r.number_back n).0

  pub boolean_compact : (b : Bool) → r.IsCompact (c.boolean_text b)
  boolean_compact b = (r.boolean_back b).0

  pub object_read :
      {A : Type 0} (read : List (Bytes × Bytes) → Option A) (a : A) (ms : List (Bytes × Bytes))
      → All (λ m. r.IsCompact m.1) ms
      → read ms ≡ some a
      → Back (c.object_text ms) (λ t. fields c t >>= read) a
  object_read read a ms h q = let (t, e, k, p) = r.object_back ms h in (t, e, k, rw p q)

  pub content-Back : (x : Content) → IsRaw x → Back (marshal_content c x) (unmarshal_content c) x
  unfolding marshal_content unmarshal_content get bytes_eq
  content-Back (text_content text []) h =
      object_read _ _ _ (string_compact _, (string_compact _, tt)) (simp string_back)
  content-Back (text_content text (b ∷ sig)) h =
      object_read _ _ _ (string_compact _, (string_compact _, (string_compact _, tt)))
        (simp string_back)
  content-Back (image_content encoded mime) h =
      object_read _ _ _ (string_compact _, (string_compact _, (string_compact _, tt)))
        (simp string_back)
  content-Back (thinking_content thinking [] false) h =
      object_read _ _ _ (string_compact _, (string_compact _, tt)) (simp string_back)
  content-Back (thinking_content thinking [] true) h =
      object_read _ _ _ (string_compact _, (string_compact _, (boolean_compact _, tt)))
        (simp (string_back, boolean_back))
  content-Back (thinking_content thinking (b ∷ sig) false) h =
      object_read _ _ _ (string_compact _, (string_compact _, (string_compact _, tt)))
        (simp string_back)
  content-Back (thinking_content thinking (b ∷ sig) true) h =
      object_read _ _ _
        (string_compact _, (string_compact _, (string_compact _, (boolean_compact _, tt))))
        (simp (string_back, boolean_back))
  content-Back (tool_call id name [] sig) h = absurd h
  content-Back (tool_call id name (b ∷ args) []) h =
      object_read _ _ _ (string_compact _, (string_compact _, (string_compact _, (h, tt))))
        (simp string_back)
  content-Back (tool_call id name (b ∷ args) (d ∷ sig)) h =
      object_read _ _ _
        (string_compact _, (string_compact _, (string_compact _, (h, (string_compact _, tt)))))
        (simp string_back)

  each_back :
      (xs : List Content)
      → All IsRaw xs
      → (ts : List Bytes) × (marshal_each c xs ≡ some ts)
        × All r.IsCompact ts
        × (unmarshal_each c ts ≡ some xs)
  unfolding marshal_each unmarshal_each
  each_back [] h = ([], refl, tt, refl)
  each_back (x ∷ xs) (h, hs) =
      let (t, e, k, p) = content-Back x h in
      let (ts, es, ks, ps) = each_back xs hs in (t ∷ ts, simp (e, es), (k, ks), simp (p, ps))

  pub slice-Back :
      (xs : List Content)
      → All IsRaw xs
      → Back (marshal_slice c xs) (λ t. unmarshal_slice c (some t)) xs
  unfolding marshal_slice unmarshal_slice
  slice-Back xs h =
      let (ts, es, ks, ps) = each_back xs h in
      let (t, e, k, p) = r.array_back ts ks in (t, simp (es, e), k, simp (p, ps))
