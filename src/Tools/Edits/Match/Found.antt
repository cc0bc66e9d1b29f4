-- ===== src/Tools/Edits/Match/Found.antt =====
-- internal/tools/editmatch.go: what stands where the edits were found.
use mixi.Tools.Edits.Match.{EditSpec, count}
use mixi.Base.{ℕ, ◌+◌, ◌≡◌, ◌⊎◌, List, [], ◌∷◌, ◌++◌, length, take, drop}
use mixi.Base.Bytes.{Bytes}
use mixi.Tools.Edits.{Edit}

-- The text `s` with `p` at the index `i`.
abbrev IsSplit : Bytes → Bytes → ℕ → Type 0
IsSplit s p i = s ≡ take i s ++ (p ++ drop (i + length p) s)

-- An edit's span holds its old text, whose only occurrence it is.
pub record IsMark (norm : Bytes → Bytes) (base : Bytes) (e : EditSpec) (x : Edit) : Type 0 where
  pub stops : x.stop ≡ x.start + length (norm e.old_text)
  pub holds : base ≡ take x.start base ++ (norm e.old_text ++ drop x.stop base)
  pub once : count base (norm e.old_text) ≡ 1
  pub replaces : x.new_text ≡ e.new_text

abbrev pub AreMarks : (Bytes → Bytes) → Bytes → List EditSpec → List Edit → Type 0
AreMarks norm base [] [] = Unit
AreMarks norm base (e ∷ es) (x ∷ xs) = IsMark norm base e x × AreMarks norm base es xs
AreMarks norm base es xs = ⊥

-- What a match is in: the content as it is, or the normalized content.
abbrev pub IsMatched : (Bytes → Bytes) → Bytes → List EditSpec → Bytes → List Edit → Type 0
IsMatched norm content es base xs =
    ((base ≡ content) × AreMarks (λ t. t) base es xs)
    ⊎ ((base ≡ norm content) × AreMarks norm base es xs)
