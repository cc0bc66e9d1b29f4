-- ===== src/Ai/Sse/RoundTrip.antt =====
-- internal/ai/sse/sse.go: events written to a stream, and decoded from it.
use mixi.Base.{◌≡◌, Bool, true, false, not, ◌||◌, List, [], ◌∷◌, ◌++◌, ◌==◌, All, any}
use mixi.Base.Bytes.{Bytes, codes, join}
use mixi.Ai.Sse.{lf, cr, Event, is_ping}

-- The three ways to end a line.
pub data LineEnd : Type 0 where
  newline return both : LineEnd

abbrev pub end_bytes : LineEnd → Bytes
end_bytes newline = lf ∷ []
end_bytes return = cr ∷ []
end_bytes both = cr ∷ lf ∷ []

-- An event as a server writes it: its name, and the lines of its data.
pub record Sent : Type 0 where
  pub name : Bytes
  pub first : Bytes
  pub more : List Bytes

abbrev pub data_lines : List Bytes → List Bytes
data_lines [] = []
data_lines (d ∷ ds) = (codes "data: " ++ d) ∷ data_lines ds

abbrev pub event_lines : Sent → List Bytes
event_lines e = (codes "event: " ++ e.name) ∷ (data_lines (e.first ∷ e.more) ++ [] ∷ [])

unfoldable pub stream_lines : List Sent → List Bytes
stream_lines [] = []
stream_lines (e ∷ es) = event_lines e ++ stream_lines es

unfoldable pub glued : Bytes → List Bytes → Bytes
glued ending [] = []
glued ending (l ∷ ls) = (l ++ ending) ++ glued ending ls

-- The stream that a server writes.
abbrev pub encode : LineEnd → List Sent → Bytes
encode ending es = glued (end_bytes ending) (stream_lines es)

abbrev pub one_line : Bytes → Bool
one_line l = not (any (λ c. c == lf || c == cr) l)

pub record IsSent (e : Sent) : Type 0 where
  pub name_line : one_line e.name ≡ true
  pub no_ping : is_ping e.name ≡ false
  pub data_lines : All (λ d. one_line d ≡ true) (e.first ∷ e.more)

abbrev IsLine : Bytes → Type 0
IsLine l = one_line l ≡ true

-- after a \r, a byte that is no \n counts as it does elsewhere
abbrev starts_lf : Bytes → Bool
starts_lf [] = false
starts_lf (c ∷ s) = c == lf

abbrev pub event_of : Sent → Event
event_of e = record { event = e.name; payload = join lf (e.first ∷ e.more) }
