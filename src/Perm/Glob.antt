-- ===== src/Perm/Glob.antt =====
-- internal/perm/globmatch.go: `wildcardMatch`, the flat glob over command strings and tool names.
pub mod Greedy
use mixi.Base.{ℕ, ◌+◌, Bool, false, none, some, List, [], ◌∷◌, if◌then◌else◌, length, drop}
use mixi.Base.Bytes.{Bytes, bytes_eq, has_prefix, has_suffix, index, split}

abbrev pub star : ℕ
star = b'*'

-- The loop over parts[1 : len(parts)-1], then the test on the last part.
pub scan_parts : List Bytes → Bytes → Bool
unfolding index has_suffix
scan_parts [] s = false
scan_parts (last ∷ []) s = has_suffix s last
scan_parts (part ∷ next ∷ rest) s = elim (index s part) [
  | none ↦ false
  | some i ↦ scan_parts (next ∷ rest) (drop (i + length part) s)
]

-- Split never returns an empty slice, so the first clause is not reached.
wildcard_parts : Bytes → List Bytes → Bytes → Bool
unfolding scan_parts has_prefix bytes_eq
wildcard_parts pattern [] s = false
wildcard_parts pattern (first ∷ []) s = bytes_eq pattern s
wildcard_parts pattern (first ∷ next ∷ rest) s =
    if has_prefix s first then scan_parts (next ∷ rest) (drop (length first) s) else false

unfoldable pub wildcard_match : Bytes → Bytes → Bool
unfolding split wildcard_parts
wildcard_match pattern s = wildcard_parts pattern (split star pattern) s
