-- ===== src/Wire.antt =====
-- internal/wire/jsonl.go: one JSON message a line, over a byte stream.
mod Samples
use mixi.Base.{
  ℕ, ◌≤◌, ◌≡◌, refl, sym, ap, ap₂, ◌∙◌, inl, inr, Bool, true, false, ◌&&◌, Option, none, some, List,
  [], ◌∷◌, ◌++◌, map, append-nil, append_assoc, arith, ltb, leb, ◌==◌, if◌then◌else◌, Bool-cases,
  length, All, any,
}
use mixi.Base.Bytes.{Bytes}
use mixi.Base.Lines.{newline, raw_lines, raw_lines_some, raw_lines-append, raw_lines_last}

-- MaxLineBytes
abbrev pub max_line_bytes : ℕ
max_line_bytes = 1048576

pub data WriteResult : Type 0 where
  too_long : WriteResult
  failed : WriteResult
  written : WriteResult

-- WriteLine, onto the bytes that the stream holds; `write_ok` is the stream's answer
unfoldable pub write_line : (write_ok : Bool) → Bytes → Bytes → WriteResult × Bytes
write_line write_ok msg stream =
    if ltb max_line_bytes (length msg)
    then (too_long, stream)
    else if write_ok
    then (written, stream ++ (msg ++ newline ∷ []))
    else (failed, stream)

-- A line of bufio's ReadLine: its newline is dropped, and a carriage return before that.
unfoldable pub strip_end : Bytes → Bytes
strip_end [] = []
strip_end (c ∷ []) = if c == newline then [] else c ∷ []
strip_end (c ∷ d ∷ s) =
    let rest = strip_end (d ∷ s) in
    if c == 13 && (d == newline && leb (length s) 0) then [] else c ∷ rest

pub data Read : Type 0 where
  message : Bytes → Read
  line_too_long : Read

-- what one line gives: a message, the error, or nothing where it is blank
abbrev pub read_of : Bytes → List Read
read_of [] = []
read_of (c ∷ s) =
    if ltb max_line_bytes (length (c ∷ s)) then line_too_long ∷ [] else message (c ∷ s) ∷ []

-- Repeated ReadLine until the end of the stream. Its chunks join up to the lines, and one that is
-- too long is an error of its own and is read past.
unfoldable pub read_lines : List Bytes → List Read
read_lines [] = []
read_lines (l ∷ ls) = read_of (strip_end l) ++ read_lines ls

unfoldable pub read_all : Bytes → List Read
read_all stream = read_lines (raw_lines stream)

-- ReadLine, of the lines that are left; `none` is io.EOF
unfoldable pub read_line : List Bytes → Option Read × List Bytes
read_line [] = (none, [])
read_line (l ∷ ls) = elim (read_of (strip_end l)) [ [] ↦ read_line ls | r ∷ rs ↦ (some r, ls) ]

-- a message that the two ends agree on: some bytes within the limit, none a newline or a return
pub record IsMessage (m : Bytes) : Type 0 where
  pub some_bytes : 1 ≤ length m
  pub fits : length m ≤ max_line_bytes
  pub one_line : any (λ c. c == newline) m ≡ false
  pub no_return : any (λ c. c == 13) m ≡ false

unfoldable pub write_all : List Bytes → Bytes → Bytes
write_all [] stream = stream
write_all (m ∷ ms) stream = write_all ms ((write_line true m stream).1)

strip_message : (m : Bytes) → any (λ c. c == 13) m ≡ false → strip_end (m ++ newline ∷ []) ≡ m
unfolding strip_end
strip_message [] h = refl
strip_message (c ∷ []) h = ground (arith, h)
strip_message (c ∷ d ∷ m) h = elim (Bool-cases (c == 13)) [
  | inl q ↦ absurd (cc (rw q at h))
  | inr q ↦ rw q (ap (λ t. c ∷ t) (strip_message (d ∷ m) (rw q at h)))
]

read_message : (m : Bytes) → IsMessage m → read_of m ≡ message m ∷ []
read_message [] i = absurd (omega (arith, i.some_bytes))
read_message (c ∷ m) i = ground (arith, i.fits)

-- the stream written, as what was there and the messages' lines
unfoldable pub framed : List Bytes → Bytes
framed [] = []
framed (m ∷ ms) = (m ++ newline ∷ []) ++ framed ms

written_one :
    (m stream : Bytes) → IsMessage m → (write_line true m stream).1 ≡ stream ++ (m ++ newline ∷ [])
unfolding write_line
written_one m stream i = ground (arith, i.fits)

write_all-framed :
    (ms : List Bytes) (stream : Bytes)
    → All IsMessage ms
    → write_all ms stream ≡ stream ++ framed ms
unfolding write_all write_line framed
write_all-framed [] stream h = sym (append-nil stream)
write_all-framed (m ∷ ms) stream (i, h) =
    ap (write_all ms) (written_one m stream i)
    ∙ (write_all-framed ms (stream ++ (m ++ newline ∷ [])) h
        ∙ append_assoc stream (m ++ newline ∷ []) (framed ms))

read_framed : (ms : List Bytes) → All IsMessage ms → read_all (framed ms) ≡ map message ms
unfolding read_all framed read_lines raw_lines strip_end
read_framed [] h = refl
read_framed (m ∷ ms) (i, h) =
    ap read_lines (raw_lines-append m (framed ms) i.one_line)
    ∙ ap₂ (λ a b. a ++ b) (ap read_of (strip_message m i.no_return) ∙ read_message m i)
        (read_framed ms h)

-- The messages that one end writes are the messages that the other reads, in their order, if each
-- has some bytes, at most the limit, and neither newlines nor carriage returns.
pub read_all-write_all :
    (ms : List Bytes) → All IsMessage ms → read_all (write_all ms []) ≡ map message ms
read_all-write_all ms h = ap read_all (write_all-framed ms [] h) ∙ read_framed ms h
