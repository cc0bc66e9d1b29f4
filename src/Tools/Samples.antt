-- ===== src/Tools/Samples.antt =====
-- internal/tools: limits and buffers on small inputs.
use mathlib.Core.List.{Perm}
use mixi.Tools.Edits.{Edit, validate_overlaps, sort_onto, apply_edits}
use mixi.Tools.Edits.Match.{EditSpec}
use mixi.Tools.Edits.Replaced.{Descends, woven, apply_edits-woven}
use mixi.Tools.Truncate.Head.{size_of, head_truncate-limits}
use mixi.Base.{◌≤◌, ◌≡◌, refl, true, false, none, some, [], ◌∷◌, arith, length, List, take}
use mixi.Base.Bytes.{codes, split, Bytes}
use mixi.Tools.Truncate.{head_truncate, tail_truncate, clip_line, ellipsis}
use mixi.Tools.Accumulator.{persist_full, Accumulator, Disk, write, read_from, persist_full}
use mixi.Tools.Accumulator.Stream.{Keeps, write-Keeps}

two_of_three :
    head_truncate (codes "ab" ∷ codes "cd" ∷ codes "ef" ∷ []) 9 6
    ≡ (codes "ab" ∷ codes "cd" ∷ [], true)
unfolding head_truncate mixi.Tools.Truncate.head_lines
two_of_three = refl

last_line : tail_truncate (codes "ab\ncd\nef") 9 5 ≡ (codes "ef", true)
unfolding tail_truncate mixi.Tools.Truncate.lines_of split mixi.Tools.Truncate.last_bytes
    mixi.Tools.Truncate.drop_partial_line mixi.Tools.Truncate.after_newline
    mixi.Tools.Truncate.cut_utf8_start mixi.Tools.Truncate.rune_from mixi.Tools.Truncate.rune_start
last_line = refl

-- A clip inside a sequence of two bytes goes back to its start.
clipped : clip_line (97 ∷ 195 ∷ 169 ∷ 98 ∷ []) 2 ≡ 97 ∷ ellipsis
unfolding clip_line mixi.Tools.Truncate.rune_before mixi.Tools.Truncate.rune_start
clipped = refl

abbrev small : Accumulator
small = record {
  max_rolling = 4;
  buf = [];
  buf_start = 0;
  total = 0;
  file = none;
  file_err = false;
}

abbrev disk : Disk
disk = record { creates = true; short = none }

abbrev written_once : Accumulator
written_once = record {
  max_rolling = 4;
  buf = codes "cdef";
  buf_start = 2;
  total = 6;
  file = some (codes "abcdef");
  file_err = false;
}

spills : write disk (codes "abcdef") small ≡ written_once
unfolding write mixi.Tools.Accumulator.take_in mixi.Tools.Accumulator.spill
spills = refl

small-Keeps : Keeps [] small
small-Keeps = record { counted = refl; in_range = omega arith; tail_kept = refl; file_holds = refl }

written_once-Keeps : Keeps (codes "abcdef") written_once
written_once-Keeps = record {
  counted = refl;
  in_range = omega arith;
  tail_kept = refl;
  file_holds = refl;
}

write-Keeps_example : Keeps (codes "abcdef") (write disk (codes "abcdef") small)
write-Keeps_example = write-Keeps disk (codes "abcdef") [] small small-Keeps

held_whole : persist_full disk written_once ≡ some (codes "abcdef")
unfolding persist_full
held_whole = refl

-- After a write to the file failed, persist_full still names it, though it is not the whole stream.
incomplete :
    persist_full disk (write (record { creates = true; short = some 1 }) (codes "gh") written_once)
    ≡ some (codes "abcdefg")
unfolding persist_full write mixi.Tools.Accumulator.take_in
incomplete = refl

abbrev three : List Bytes
three = codes "ab" ∷ codes "cd" ∷ codes "ef" ∷ []

head_truncate-limits_example :
    (let kept = (head_truncate three 9 6).0 in
      (kept ≡ take (length kept) three) × (length kept ≤ 9) × (size_of kept ≤ 6))
head_truncate-limits_example = head_truncate-limits three 9 6

-- The first edit stands after the second.
abbrev edits : List Edit
edits =
    record { start = 4; stop = 6; new_text = codes "X" }
    ∷ record { start = 0; stop = 1; new_text = codes "YY" }
    ∷ []

edited : apply_edits (codes "abcdefg") edits ≡ codes "YYbcdXg"
unfolding apply_edits mixi.Tools.Edits.replace_all sort_onto mixi.Tools.Edits.insert_edit
    mixi.Tools.Edits.replace_span
edited = refl

valid : validate_overlaps edits ≡ none
unfolding validate_overlaps mixi.Tools.Edits.overlap_from mixi.Tools.Edits.overlap_with
    mixi.Tools.Edits.overlaps
valid = refl

apply_edits-woven_example :
    Perm (sort_onto [] edits) edits
    × Descends 7 (sort_onto [] edits)
    × (apply_edits (codes "abcdefg") edits ≡ woven (codes "abcdefg") 7 (sort_onto [] edits))
apply_edits-woven_example =
    apply_edits-woven (codes "abcdefg") edits
      ((omega arith, omega arith), ((omega arith, omega arith), tt)) valid

abbrev specs : List EditSpec
specs =
    record { old_text = codes "f"; new_text = codes "YZ" }
    ∷ record { old_text = codes "bc"; new_text = codes "X" }
    ∷ []

abbrev spans : List Edit
spans =
    record { start = 5; stop = 6; new_text = codes "YZ" }
    ∷ record { start = 1; stop = 3; new_text = codes "X" }
    ∷ []
