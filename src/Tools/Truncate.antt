-- ===== src/Tools/Truncate.antt =====
-- internal/tools/truncate.go: output cut at its head or its tail.
pub mod Head
use mixi.Base.{
  ℕ, zero, suc, ◌+◌, ◌-◌, max, Bool, true, false, not, ◌&&◌, Option, none, some, List, [], ◌∷◌,
  ◌++◌, ltb, leb, ◌==◌, if◌then◌else◌, length, get_elem?, take, drop,
}
use mixi.Base.Bytes.{Bytes, split, join}

abbrev pub max_lines : ℕ
max_lines = 2000

abbrev pub max_bytes : ℕ
max_bytes = 51200

-- The loop of headTruncate: `room` lines are left, and `size` bytes are counted, newlines too.
unfoldable pub head_lines : List Bytes → (room size max : ℕ) → List Bytes × Bool
head_lines [] room size max = ([], false)
head_lines (line ∷ lines) zero size max = ([], true)
head_lines (line ∷ lines) (suc room) size max =
    let rest = head_lines lines room (size + length line + 1) max in
    if ltb max (size + length line + 1) then ([], true) else (line ∷ rest.0, rest.1)

unfoldable pub head_truncate : List Bytes → (max_lines max_bytes : ℕ) → List Bytes × Bool
head_truncate lines max_lines max_bytes = head_lines lines max_lines 0 max_bytes

-- utf8.RuneStart: all but a continuation byte, 10xxxxxx
unfoldable pub rune_start : ℕ → Bool
rune_start b = not (leb 128 b && ltb b 192)

-- The first byte within `n` that starts a rune
unfoldable pub rune_from : ℕ → Bytes → Option Bytes
rune_from zero s = none
rune_from (suc n) [] = none
rune_from (suc n) (b ∷ s) = let rest = rune_from n s in if rune_start b then some (b ∷ s) else rest

-- utf8.UTFMax
abbrev utf_max : ℕ
utf_max = 4

unfoldable pub cut_utf8_start : Bytes → Bytes
cut_utf8_start s = elim (rune_from utf_max s) [ none ↦ s | some t ↦ t ]

abbrev newline : ℕ
newline = 10

-- What is after the first newline, if there is one and something is after it
abbrev past : Bytes → Option Bytes
past [] = none
past (c ∷ cs) = some (c ∷ cs)

unfoldable pub after_newline : Bytes → Option Bytes
after_newline [] = none
after_newline (b ∷ s) = let rest = after_newline s in if b == newline then past s else rest

unfoldable pub drop_partial_line : Bytes → Bytes
drop_partial_line s = elim (after_newline s) [ none ↦ s | some t ↦ t ]

unfoldable pub last_bytes : ℕ → Bytes → Bytes × Bool
last_bytes max s =
    if ltb max (length s)
    then (drop_partial_line (cut_utf8_start (drop (length s - max) s)), true)
    else (s, false)

-- strings.Split(s, "\n")
unfoldable pub lines_of : Bytes → List Bytes
lines_of s = split newline s

unfoldable pub tail_truncate : Bytes → (max_lines max_bytes : ℕ) → Bytes × Bool
tail_truncate s max_lines max_bytes =
    let cut = last_bytes max_bytes s in
    let lines = lines_of (cut.0) in
    if ltb max_lines (length lines)
    then (join newline (drop (length lines - max_lines) lines), true)
    else cut

-- for cut > 0 && !utf8.RuneStart(s[cut]); the index is in range
abbrev starts_at : Bytes → ℕ → Bool
starts_at s i = elim (get_elem? s i) [ none ↦ false | some b ↦ rune_start b ]

unfoldable pub rune_before : Bytes → ℕ → ℕ
rune_before s zero = zero
rune_before s (suc cut) =
    let rest = rune_before s cut in if starts_at s (suc cut) then suc cut else rest

-- The ellipsis in UTF-8
abbrev pub ellipsis : Bytes
ellipsis = 226 ∷ 128 ∷ 166 ∷ []

unfoldable pub clip_line : Bytes → ℕ → Bytes
clip_line s max = if leb (length s) max then s else take (rune_before s max) s ++ ellipsis
