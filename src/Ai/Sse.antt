-- ===== src/Ai/Sse.antt =====
-- internal/ai/sse/sse.go: server-sent events, decoded from the whole of a stream. The scanner's limit
-- on the length of a line is left out.
pub mod RoundTrip
use mixi.Base.{
  ℕ, Bool, true, false, ◌||◌, Option, none, some, List, [], ◌∷◌, ◌++◌, ◌==◌, if◌then◌else◌, length,
  drop,
}
use mixi.Base.Bytes.{Bytes, codes, bytes_eq, has_prefix, cons_head, join}

abbrev pub lf : ℕ
lf = 10

abbrev pub cr : ℕ
cr = 13

pub record Event : Type 0 where
  pub event : Bytes
  pub payload : Bytes

-- scanEOL over the whole stream: the lines, ended by \n, by \r\n or by \r; `after_cr` when the byte
-- before was a \r that has ended a line
unfoldable pub scan : (after_cr : Bool) → Bytes → List Bytes
scan after_cr [] = []
scan after_cr (c ∷ s) =
    let ended = scan false s in
    let returned = scan true s in
    if c == lf
    then if after_cr then ended else [] ∷ ended
    else if c == cr
    then [] ∷ returned
    else cons_head c ended

abbrev pub scan_lines : Bytes → List Bytes
scan_lines s = scan false s

abbrev pub event_prefix : Bytes
event_prefix = codes "event:"

abbrev pub data_prefix : Bytes
data_prefix = codes "data:"

-- trimFieldValue: strings.TrimPrefix(v, " ")
unfoldable pub trim_field_value : Bytes → Bytes
trim_field_value [] = []
trim_field_value (c ∷ v) = if c == 32 then v else c ∷ v

-- What one line says.
pub data Field : Type 0 where
  blank : Field
  ignored : Field
  event_field : Bytes → Field
  data_field : Bytes → Field

abbrev pub named_field : Bytes → Field
named_field line =
    if has_prefix line (codes ":")
    then ignored
    else if has_prefix line event_prefix
    then event_field (trim_field_value (drop (length event_prefix) line))
    else if has_prefix line data_prefix
    then data_field (trim_field_value (drop (length data_prefix) line))
    else ignored

unfoldable pub field_of : Bytes → Field
field_of [] = blank
field_of (c ∷ s) = named_field (c ∷ s)

abbrev pub is_ping : Bytes → Bool
is_ping event = bytes_eq event (codes "ping")

abbrev pub no_data : List Bytes → Bool
no_data [] = true
no_data (d ∷ ds) = false

-- the event gathered so far
abbrev pub gathered : Bytes → List Bytes → Event
gathered event lines = record { event = event; payload = join lf lines }

-- Repeated Next until io.EOF, from an event gathered so far: the events in turn.
unfoldable pub decode : List Bytes → Bytes → List Bytes → List Event
decode [] event lines = if no_data lines || is_ping event then [] else gathered event lines ∷ []
decode (line ∷ rest) event lines = elim (field_of line) [
  | blank ↦
      let after = decode rest [] [] in
      if no_data lines || is_ping event then after else gathered event lines ∷ after
  | ignored ↦ decode rest event lines
  | event_field v ↦ decode rest v lines
  | data_field v ↦ decode rest event (lines ++ v ∷ [])
]

unfoldable pub decode_stream : Bytes → List Event
decode_stream s = decode (scan_lines s) [] []

-- Next, on the lines that are left; `none` is io.EOF
unfoldable pub next : List Bytes → Bytes → List Bytes → Option Event × List Bytes
next [] event lines =
    (if no_data lines || is_ping event then none else some (gathered event lines), [])
next (line ∷ rest) event lines = elim (field_of line) [
  | blank ↦
      let again = next rest [] [] in
      if no_data lines || is_ping event then again else (some (gathered event lines), rest)
  | ignored ↦ next rest event lines
  | event_field v ↦ next rest v lines
  | data_field v ↦ next rest event (lines ++ v ∷ [])
]
