-- ===== src/Tools/Accumulator.antt =====
-- internal/tools/accumulator.go: the output of a shell command, of which memory keeps a tail and a
-- file all, once there is much of it. The mutex makes each operation one step.
pub mod Stream
use mixi.Base.{
  ℕ, ◌+◌, ◌-◌, ◌*◌, Bool, true, false, not, ◌||◌, Option, none, some, [], ◌++◌, ltb, leb, ◌==◌,
  if◌then◌else◌, length, take, drop,
}
use mixi.Base.Bytes.{Bytes}
use mixi.Tools.Truncate.{cut_utf8_start, max_bytes}

-- The spill file, with what it holds; `file_err` is whether a spill failed.
pub record Accumulator : Type 0 where
  pub max_rolling : ℕ
  pub buf : Bytes
  pub buf_start : ℕ
  pub total : ℕ
  pub file : Option Bytes
  pub file_err : Bool

-- The file system's answers for one Write: whether the file can be made, and how much of what is
-- written gets into it, where `none` is all of it, without an error.
pub record Disk : Type 0 where
  pub creates : Bool
  pub short : Option ℕ

abbrev pub new_accumulator : Accumulator
new_accumulator = record {
  max_rolling = 2 * max_bytes;
  buf = [];
  buf_start = 0;
  total = 0;
  file = none;
  file_err = false;
}

-- What the file gets of `p`, and whether that was an error
abbrev pub written : Option ℕ → Bytes → Bytes × Bool
written none p = (p, false)
written (some n) p = (take n p, true)

-- a.total, a.buf and the file take in p
unfoldable pub take_in : Disk → Bytes → Accumulator → Accumulator
take_in d p a = elim a.file [
  | none ↦ record a { buf = a.buf ++ p; total = a.total + length p }
  | some held ↦
      if a.file_err then record a { buf = a.buf ++ p; total = a.total + length p } else record a {
        buf = a.buf ++ p;
        total = a.total + length p;
        file = some (held ++ (written d.short p).0);
        file_err = (written d.short p).1;
      }
]

unfoldable pub spill : Disk → Accumulator → Accumulator
spill d a =
    if d.creates
    then elim d.short [
      | none ↦ record a { file = some a.buf }
      | some n ↦ record a { file_err = true }
    ]
    else record a { file_err = true }

-- No spill is tried again after one failed.
abbrev pub spill_once : Disk → Accumulator → Accumulator
spill_once d a = elim a.file [ some held ↦ a | none ↦ if a.file_err then a else spill d a ]

abbrev pub roll : Accumulator → Accumulator
roll a = record a {
  buf = drop (length a.buf - a.max_rolling) a.buf;
  buf_start = a.buf_start + (length a.buf - a.max_rolling);
}

unfoldable pub write : Disk → Bytes → Accumulator → Accumulator
write d p a =
    let b = take_in d p a in if ltb b.max_rolling (length b.buf) then roll (spill_once d b) else b

pub record Snapshot : Type 0 where
  pub tail : Bytes
  pub total : ℕ
  pub spilled : Bool

unfoldable pub snapshot : Accumulator → Snapshot
snapshot a = record {
  tail = cut_utf8_start a.buf;
  total = a.total;
  spilled = elim a.file [ none ↦ false | some held ↦ true ];
}

-- ReadAt fills the whole buffer, or fails at the file's end.
abbrev pub read_at : Bytes → ℕ → ℕ → Option Bytes
read_at held offset n =
    if leb (offset + n) (length held) then some (take n (drop offset held)) else none

-- The bytes from an offset on, if they can be read, and the new cursor
unfoldable pub read_from : ℕ → Accumulator → Option Bytes × ℕ
read_from offset a = if leb a.total offset then (some [], a.total) else elim a.file [
  | some held ↦ elim (read_at held offset (a.total - offset)) [
    | none ↦ (none, offset)
    | some out ↦ (some out, a.total)
  ]
  | none ↦
      if ltb offset a.buf_start
      then (some a.buf, a.total)
      else (some (drop (offset - a.buf_start) a.buf), a.total)
]

-- What the file that persistFull names holds, if it names one
unfoldable pub persist_full : Disk → Accumulator → Option Bytes
persist_full d a = elim a.file [
  | some held ↦ some held
  | none ↦
      if a.file_err || not (a.buf_start == 0) || not d.creates
      then none
      else elim d.short [ none ↦ some a.buf | some n ↦ none ]
]
