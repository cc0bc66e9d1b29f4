-- ===== src/Session/Loader.antt =====
-- internal/session/loader.go: opening a session file, with the recovery of a torn last line.
pub mod Lines
pub mod Recovered
use mixi.Base.{
  ℕ, suc, ◌⊎◌, inl, inr, Bool, not, ◌&&◌, ◌||◌, Option, none, some, List, [], ◌∷◌, ◌++◌, ltb, leb,
  ◌==◌, if◌then◌else◌, length,
}
use mixi.Base.Bytes.{Bytes, cons_head}
use mixi.Session.Entry.{Header, Entry}
use mixi.Session.Tree.{Index, add, new_index}
use mixi.Base.Lines.{newline, raw_lines}
use mixi.Session.FileStore.{Format}

-- maxLineBytes
abbrev pub max_line_bytes : ℕ
max_line_bytes = 10485760

-- What the file system answers: whether a read of the n-th line fails, a truncation, a repair.
pub record LoadAnswers : Type 0 where
  pub read_ok : ℕ → Bool
  pub truncate_ok : Bool
  pub repair_ok : Bool

pub data LoadError : Type 0 where
  read_failed : LoadError
  line_too_long : LoadError
  bad_line : ℕ → LoadError
  truncate_failed : LoadError
  repair_failed : LoadError
  no_header : LoadError

-- The header and the index read, and the bytes of the file as load leaves them.
pub record Session : Type 0 where
  pub header : Header
  pub index : Index
  pub file : Bytes

-- white space of one byte
abbrev pub is_space : ℕ → Bool
is_space c = c == 32 || (leb 9 c && leb c 13)

unfoldable pub trim_left : Bytes → Bytes
trim_left [] = []
trim_left (c ∷ s) = let rest = trim_left s in if is_space c then rest else c ∷ s

abbrev pub trim_end : ℕ → Bytes → Bytes
trim_end c [] = if is_space c then [] else c ∷ []
trim_end c (b ∷ s) = c ∷ b ∷ s

unfoldable pub trim_right : Bytes → Bytes
trim_right [] = []
trim_right (c ∷ s) = trim_end c (trim_right s)

-- bytes.TrimSpace, on white space of one byte
abbrev pub trim_space : Bytes → Bytes
trim_space s = trim_right (trim_left s)

abbrev pub no_header_yet : Header
no_header_yet = record { version = 0; id = []; timestamp = []; cwd = []; parent_session = [] }

abbrev pub set_header : Option Header → Index → Option (Header × Index)
set_header none x = none
set_header (some h) x = some (h, x)

abbrev pub add_entry : Option Entry → Header → Index → Option (Header × Index)
add_entry none h x = none
add_entry (some e) h x = some (h, add e x)

abbrev pub parse_line : Format → Bytes → ℕ → Header → Index → Option (Header × Index)
parse_line f [] n h x = some (h, x)
parse_line f (c ∷ s) n h x =
    if n == 1
    then set_header (f.unmarshal_header (c ∷ s)) x
    else add_entry (f.unmarshal (c ∷ s)) h x

-- loadLine
unfoldable pub load_line : Format → Bytes → ℕ → Header → Index → Option (Header × Index)
load_line f line n h x = parse_line f (trim_space line) n h x

-- the end of the file
abbrev pub finish : ℕ → Header → Index → Bytes → LoadError ⊎ Session
finish n h x file =
    if ltb n 1 || h.version == 0
    then inl no_header
    else inr (record { header = h; index = x; file = file })

-- a last line without a newline: dropped when it does not parse, else given its newline
abbrev pub torn_line :
    Bool
    → LoadAnswers
    → Bytes
    → ℕ
    → Header
    → Index
    → Bytes
    → Bytes
    → Option (Header × Index)
    → LoadError ⊎ Session
torn_line read_only d line n h x before file none =
    if n == 1 || h.version == 0
    then inl (bad_line n)
    else if read_only
    then inr (record { header = h; index = x; file = file })
    else if d.truncate_ok
    then inr (record { header = h; index = x; file = before })
    else inl truncate_failed
torn_line read_only d line n h x before file (some (h', x')) =
    if read_only
    then finish n h' x' file
    else if d.repair_ok
    then finish n h' x' (file ++ newline ∷ [])
    else inl repair_failed

abbrev pub last_line :
    Format → Bool → LoadAnswers → Bytes → ℕ → Header → Index → Bytes → Bytes → LoadError ⊎ Session
last_line f ro d [] n h x before file = finish n h x file
last_line f ro d (c ∷ s) n h x before file =
    torn_line ro d (c ∷ s) (suc n) h x before file (load_line f (c ∷ s) (suc n) h x)

abbrev pub go_on :
    ℕ → Option (Header × Index) → (Header → Index → LoadError ⊎ Session) → LoadError ⊎ Session
go_on n none rest = inl (bad_line n)
go_on n (some (h, x)) rest = rest h x

abbrev pub if_read : LoadAnswers → ℕ → Bytes → LoadError ⊎ Session → LoadError ⊎ Session
if_read d n line rest =
    if not (d.read_ok n)
    then inl read_failed
    else if ltb max_line_bytes (length line)
    then inl line_too_long
    else rest

-- The loop of load: `n` lines are read, and `before` is what they held.
unfoldable pub load_lines :
    Format
    → Bool
    → LoadAnswers
    → Bytes
    → List Bytes
    → ℕ
    → Bytes
    → Header
    → Index
    → LoadError ⊎ Session
load_lines f ro d file [] n before h x = finish n h x file
load_lines f ro d file (line ∷ []) n before h x =
    if_read d n line (last_line f ro d line n h x before file)
load_lines f ro d file (line ∷ next ∷ more) n before h x = if_read d n line (
    go_on (suc n) (load_line f line (suc n) h x)
      (load_lines f ro d file (next ∷ more) (suc n) (before ++ line)))

-- load
unfoldable pub load : Format → Bool → LoadAnswers → Bytes → LoadError ⊎ Session
load f read_only d file =
    load_lines f read_only d file (raw_lines file) 0 [] no_header_yet new_index
