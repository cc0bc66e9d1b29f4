-- ===== src/Base/Lines.antt =====
-- Lines cut from a stream, as package bufio reads them.
use mixi.Base.{
  ℕ, ◌≡◌, refl, inl, inr, false, List, [], ◌∷◌, ◌++◌, arith, ◌==◌, if◌then◌else◌, Bool-cases, any,
}
use mixi.Base.Bytes.{Bytes, cons_head}

abbrev pub newline : ℕ
newline = 10

-- what repeated ReadBytes('\n') yield: complete lines, and what comes with the end of the file
unfoldable pub raw_lines : Bytes → List Bytes
raw_lines [] = [] ∷ []
raw_lines (c ∷ s) =
    let rest = raw_lines s in if c == newline then (c ∷ []) ∷ rest else cons_head c rest

pub raw_lines_some : (s : Bytes) → (l : Bytes) × (ls : List Bytes) × (raw_lines s ≡ l ∷ ls)
unfolding raw_lines cons_head
raw_lines_some [] = ([], [], refl)
raw_lines_some (c ∷ s) = elim (Bool-cases (c == newline)) [
  | inl q ↦ (c ∷ [], raw_lines s, rw q refl)
  | inr q ↦ let (l, ls, r) = raw_lines_some s in (c ∷ l, ls, rw (q, r) refl)
]

pub raw_lines-append :
    (l rest : Bytes)
    → any (λ c. c == newline) l ≡ false
    → raw_lines ((l ++ newline ∷ []) ++ rest) ≡ (l ++ newline ∷ []) ∷ raw_lines rest
unfolding raw_lines cons_head
raw_lines-append [] rest h = refl
raw_lines-append (c ∷ l) rest h = ground (arith, raw_lines-append l rest)

pub raw_lines_last : (l : Bytes) → any (λ c. c == newline) l ≡ false → raw_lines l ≡ l ∷ []
unfolding raw_lines cons_head
raw_lines_last [] h = refl
raw_lines_last (c ∷ l) h = ground (arith, raw_lines_last l)
