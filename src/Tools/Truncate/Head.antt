-- ===== src/Tools/Truncate/Head.antt =====
-- internal/tools/truncate.go, headTruncate: what it keeps.
use mixi.Base.{
  ℕ, zero, suc, ◌+◌, ◌≤◌, ◌<◌, max, ◌≡◌, refl, sym, ap, ◌⊎◌, inl, inr, true, false, false≢true,
  List, [], ◌∷◌, arith, ltb, ltb→lt, ltb→le, Bool-cases, length, take,
}
use mixi.Base.Bytes.{Bytes}
use mixi.Tools.Truncate.{head_lines, head_truncate}

-- The bytes of some lines with their newlines
unfoldable pub size_of : List Bytes → ℕ
size_of [] = 0
size_of (line ∷ lines) = length line + 1 + size_of lines

head_lines-take :
    (lines : List Bytes) (room size max : ℕ)
    → (head_lines lines room size max).0 ≡ take (length (head_lines lines room size max).0) lines
unfolding head_lines
head_lines-take [] room size max = refl
head_lines-take (line ∷ lines) zero size max = refl
head_lines-take (line ∷ lines) (suc room) size max =
    elim (Bool-cases (ltb max (size + length line + 1))) [
      | inl q ↦ rw q
      | inr q ↦ rw q (ap (λ t. line ∷ t) (head_lines-take lines room (size + length line + 1) max))
    ]

head_lines-le :
    (lines : List Bytes) (room size max : ℕ)
    → size ≤ max
    → (length (head_lines lines room size max).0 ≤ room)
      × (size + size_of (head_lines lines room size max).0 ≤ max)
unfolding head_lines size_of
head_lines-le [] room size max h = (omega arith, omega arith)
head_lines-le (line ∷ lines) zero size max h = (omega arith, omega arith)
head_lines-le (line ∷ lines) (suc room) size max h =
    elim (Bool-cases (ltb max (size + length line + 1))) [
      | inl q ↦ rw q (omega arith, omega arith)
      | inr q ↦
          let (a, b) =
            head_lines-le lines room (size + length line + 1) max
              (ltb→le max (size + length line + 1) q) in
          rw q (omega arith, omega arith)
    ]

head_lines-all :
    (lines : List Bytes) (room size max : ℕ)
    → (head_lines lines room size max).1 ≡ false
    → (head_lines lines room size max).0 ≡ lines
unfolding head_lines
head_lines-all [] room size max h = refl
head_lines-all (line ∷ lines) zero size max h = absurd (false≢true (sym h))
head_lines-all (line ∷ lines) (suc room) size max h =
    elim (Bool-cases (ltb max (size + length line + 1))) [
      | inl q ↦ absurd (false≢true (sym (rw q at h)))
      | inr q ↦
          rw q (
            ap (λ t. line ∷ t) (head_lines-all lines room (size + length line + 1) max (rw q at h)))
    ]

head_lines-full :
    (lines : List Bytes) (room size max : ℕ)
    → (head_lines lines room size max).1 ≡ true
    → (length (head_lines lines room size max).0 ≡ room)
      ⊎ (max < size + size_of (take (suc (length (head_lines lines room size max).0)) lines))
unfolding head_lines size_of
head_lines-full [] room size max h = absurd (false≢true h)
head_lines-full (line ∷ lines) zero size max h = inl refl
head_lines-full (line ∷ lines) (suc room) size max h =
    elim (Bool-cases (ltb max (size + length line + 1))) [
      | inl q ↦ rw q (
          inr (
            let l : max < size + length line + 1 = ltb→lt max (size + length line + 1) q in
            omega arith))
      | inr q ↦ elim (head_lines-full lines room (size + length line + 1) max (rw q at h)) [
        | inl a ↦ rw q (inl (ap suc a))
        | inr b ↦ rw q (inr (omega arith))
      ]
    ]

-- What headTruncate keeps is a prefix of the lines, no longer than the line limit and no larger,
-- with its newlines, than the byte limit.
pub head_truncate-limits :
    (lines : List Bytes) (max_lines max_bytes : ℕ)
    → (let kept = (head_truncate lines max_lines max_bytes).0 in
        (kept ≡ take (length kept) lines) × (length kept ≤ max_lines) × (size_of kept ≤ max_bytes))
unfolding head_truncate
head_truncate-limits lines max_lines max_bytes =
    let (a, b) = head_lines-le lines max_lines 0 max_bytes (omega arith) in
    (head_lines-take lines max_lines 0 max_bytes, a, omega arith)

-- headTruncate cuts only where it must: it reports a cut unless it keeps all the lines, and after a
-- cut it holds as many lines as it may, or the next line would be too large.
pub head_truncate-maximal :
    (lines : List Bytes) (max_lines max_bytes : ℕ)
    → (let out = head_truncate lines max_lines max_bytes in
        ((out.1 ≡ false) × (out.0 ≡ lines))
        ⊎ ((out.1 ≡ true)
            × ((length out.0 ≡ max_lines)
                ⊎ (max_bytes < size_of (take (suc (length out.0)) lines)))))
unfolding head_truncate
head_truncate-maximal lines max_lines max_bytes =
    elim (Bool-cases (head_lines lines max_lines 0 max_bytes).1) [
      | inl q ↦ inr (
        q,
        elim (head_lines-full lines max_lines 0 max_bytes q) [
          | inl a ↦ inl a
          | inr b ↦ inr (omega arith)
        ],
      )
      | inr q ↦ inl (q, head_lines-all lines max_lines 0 max_bytes q)
    ]
