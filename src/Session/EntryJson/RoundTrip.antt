-- ===== src/Session/EntryJson/RoundTrip.antt =====
-- internal/session/entry_json.go: a line that was marshalled is read back.
use mixi.Session.EntryJson.{marshal_header, current_version, header_read, unmarshal_header}
use mixi.Ai.Json.RoundTrip.{
  NilOr, Reads, Back, string_back, number_back, string_compact, number_compact, object_read,
}
use mixi.Ai.Json.RoundTrip.Messages.{IsRawMessage}
use mixi.Ai.Json.{Codec, get}
use mixi.Base.{ℕ, ◌≤◌, ◌≡◌, false, [], ◌∷◌, arith, ltb}
use mixi.Base.Bytes.{Bytes, bytes_eq}
use mixi.Session.Entry.{Header, Entry, Body, message, custom, custom_message}

supported : {v : ℕ} → v ≤ current_version → ltb current_version v ≡ false
supported h = ground (arith, h)

module _ (c : Codec) (r : Reads c) where
  abbrev pub IsRawBody : Body → Type 0
  IsRawBody (message m pinned) = IsRawMessage c r m
  IsRawBody (custom kind content) = NilOr r.IsCompact content
  IsRawBody (custom_message kind [] display details pinned) = ⊥
  IsRawBody (custom_message kind (b ∷ content) display details pinned) =
      r.IsCompact (b ∷ content) × NilOr r.IsCompact details
  IsRawBody _ = Unit

  module _ (id parent timestamp : Bytes) where
    abbrev entry_at : Body → Entry
    entry_at body = record { id = id; parent = parent; timestamp = timestamp; body = body }

  pub header-Back :
      (h : Header)
      → h.version ≤ current_version
      → Back c r (marshal_header c h) (unmarshal_header c) h
  unfolding marshal_header unmarshal_header get bytes_eq
  header-Back h v =
      object_read c r (header_read c) _ _
        (
          string_compact c r _,
          (
            number_compact c r _,
            (
              string_compact c r _,
              (string_compact c r _, (string_compact c r _, (string_compact c r _, tt))),
            ),
          ),
        )
        (simp (string_back c r, number_back c r, supported v))
