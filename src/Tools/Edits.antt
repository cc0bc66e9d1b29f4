-- ===== src/Tools/Edits.antt =====
-- internal/tools/editmatch.go: edits whose places are known are checked for overlaps, and applied.
pub mod Replaced
pub mod Match
use mixi.Base.{
  ℕ, suc, Bool, ◌&&◌, Option, none, some, List, [], ◌∷◌, ◌++◌, ltb, if◌then◌else◌, take, drop,
}
use mixi.Base.Bytes.{Bytes}

-- A span of the base, and the text that replaces it: spans[i] with edits[i]
pub record Edit : Type 0 where
  pub start : ℕ
  pub stop : ℕ
  pub new_text : Bytes

unfoldable pub overlaps : Edit → Edit → Bool
overlaps x y = ltb x.start y.stop && ltb y.start x.stop

-- The first of `ys` that overlaps the i-th edit; they are numbered from `j`.
unfoldable pub overlap_with : ℕ → Edit → ℕ → List Edit → Option (ℕ × ℕ)
overlap_with i x j [] = none
overlap_with i x j (y ∷ ys) =
    let rest = overlap_with i x (suc j) ys in if overlaps x y then some (i, j) else rest

abbrev pub or_pair : Option (ℕ × ℕ) → Option (ℕ × ℕ) → Option (ℕ × ℕ)
or_pair none o = o
or_pair (some p) o = some p

unfoldable pub overlap_from : ℕ → List Edit → Option (ℕ × ℕ)
overlap_from i [] = none
overlap_from i (x ∷ xs) = or_pair (overlap_with i x (suc i) xs) (overlap_from (suc i) xs)

-- The numbers of two edits that overlap, if any do
unfoldable pub validate_overlaps : List Edit → Option (ℕ × ℕ)
validate_overlaps es = overlap_from 0 es

-- An element goes left past those that start before it.
unfoldable pub insert_edit : Edit → List Edit → List Edit
insert_edit x [] = x ∷ []
insert_edit x (y ∷ ys) =
    let rest = insert_edit x ys in if ltb y.start x.start then x ∷ y ∷ ys else y ∷ rest

-- The insertion sort, descending by start
unfoldable pub sort_onto : List Edit → List Edit → List Edit
sort_onto sorted [] = sorted
sort_onto sorted (x ∷ xs) = sort_onto (insert_edit x sorted) xs

-- out[:start] + newText + out[end:]
unfoldable pub replace_span : Edit → Bytes → Bytes
replace_span e out = take e.start out ++ e.new_text ++ drop e.stop out

unfoldable pub replace_all : List Edit → Bytes → Bytes
replace_all [] out = out
replace_all (e ∷ es) out = replace_all es (replace_span e out)

unfoldable pub apply_edits : Bytes → List Edit → Bytes
apply_edits base es = replace_all (sort_onto [] es) base
