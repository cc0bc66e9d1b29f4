-- ===== src/Session/EntryJson/Stored.antt =====
-- internal/session: a session that was stored in the JSON of its entries.
use mixi.Ai.Json.{Codec}
use mixi.Base.{◌≡◌, some, List}
use mixi.Base.Bytes.{Bytes}
use mixi.Session.Entry.{Entry}
use mixi.Session.FileStore.{FileStore}
use mixi.Session.Loader.Lines.{IsObject}

-- json.Marshal writes an object between braces, on one line.
abbrev pub IsBraced : Codec → Type 0
IsBraced c = (ms : List (Bytes × Bytes)) (t : Bytes) → c.object_text ms ≡ some t → IsObject t
