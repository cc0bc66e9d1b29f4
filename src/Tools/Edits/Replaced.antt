-- ===== src/Tools/Edits/Replaced.antt =====
-- internal/tools/editmatch.go: what the edits make of a file.
use mathlib.Core.List.{Perm, perm_middle, append-nil}
use mathlib.Core.List.Perm
use mixi.Base.{
  ℕ, zero, suc, ◌≤◌, ◌<◌, ◌≡◌, refl, sym, ap, ap₂, ◌∙◌, ◌⊎◌, inl, inr, false, Option, none, some,
  List, [], ◌∷◌, ◌++◌, append_assoc, arith, ltb, ltb→lt, ltb→le, Bool-cases, Option-cases, length,
  take, drop, length-take, All, take_all, subst,
}
use mixi.Base.Bytes.{Bytes}
use mixi.Tools.Edits.{
  Edit, overlaps, overlap_with, overlap_from, insert_edit, sort_onto, replace_span, replace_all,
  validate_overlaps, apply_edits,
}

-- A span is not empty, and inside the base.
abbrev pub IsPlaced : ℕ → Edit → Type 0
IsPlaced size e = (e.start < e.stop) × (e.stop ≤ size)

-- The last span first, each ends before the one before it starts.
abbrev pub Descends : ℕ → List Edit → Type 0
Descends hi [] = Unit
Descends hi (e ∷ es) = (e.start < e.stop) × (e.stop ≤ hi) × Descends e.start es

-- The first `hi` bytes of the base with each span's text in place of it: what lies between two
-- spans, and before and after them all, is the base's.
unfoldable pub woven : Bytes → ℕ → List Edit → Bytes
woven base hi [] = take hi base
woven base hi (e ∷ es) = woven base e.start es ++ e.new_text ++ drop e.stop (take hi base)

take-take : (m n : ℕ) (s : Bytes) → m ≤ n → take m (take n s) ≡ take m s
take-take zero n s h = refl
take-take (suc m) zero s h = absurd (omega arith)
take-take (suc m) (suc n) [] h = refl
take-take (suc m) (suc n) (b ∷ s) h = ap (λ t. b ∷ t) (take-take m n s (omega arith))

take-append_le : (n : ℕ) (s t : Bytes) → n ≤ length s → take n (s ++ t) ≡ take n s
take-append_le zero s t h = refl
take-append_le (suc n) [] t h = absurd (omega arith)
take-append_le (suc n) (b ∷ s) t h = ap (λ t. b ∷ t) (take-append_le n s t (omega arith))

drop-append_le : (n : ℕ) (s t : Bytes) → n ≤ length s → drop n (s ++ t) ≡ drop n s ++ t
drop-append_le zero s t h = refl
drop-append_le (suc n) [] t h = absurd (omega arith)
drop-append_le (suc n) (b ∷ s) t h = drop-append_le n s t (omega arith)

replace_span-prefix :
    (base tail : Bytes) (hi : ℕ) (e : Edit)
    → hi ≤ length base
    → e.start < e.stop
    → e.stop ≤ hi
    → replace_span e (take hi base ++ tail)
      ≡ take e.start base ++ (e.new_text ++ (drop e.stop (take hi base) ++ tail))
unfolding replace_span
replace_span-prefix base tail hi e h k l =
    ap₂ (λ x y. x ++ e.new_text ++ y)
      (take-append_le e.start (take hi base) tail (omega (arith, length-take hi base))
        ∙ take-take e.start hi base (omega arith))
      (drop-append_le e.stop (take hi base) tail (omega (arith, length-take hi base)))
    ∙ append_assoc (take e.start base) e.new_text (drop e.stop (take hi base) ++ tail)

replace_all-woven :
    (base : Bytes) (es : List Edit) (hi : ℕ) (tail : Bytes)
    → hi ≤ length base
    → Descends hi es
    → replace_all es (take hi base ++ tail) ≡ woven base hi es ++ tail
unfolding replace_all woven
replace_all-woven base [] hi tail h d = refl
replace_all-woven base (e ∷ es) hi tail h (k, l, d) =
    ap (replace_all es) (replace_span-prefix base tail hi e h k l)
    ∙ (replace_all-woven base es e.start (e.new_text ++ (drop e.stop (take hi base) ++ tail))
          (omega arith) d
        ∙ regroup (woven base e.start es) e.new_text (drop e.stop (take hi base)))
  where
    regroup : (a b c : Bytes) → a ++ (b ++ (c ++ tail)) ≡ (a ++ b ++ c) ++ tail
    regroup a b c = sym (append_assoc (a ++ b) c tail ∙ append_assoc a b (c ++ tail))

-- Two edits that do not overlap, as orders
Apart : Edit → Edit → Type 0
Apart x y = (y.stop ≤ x.start) ⊎ (x.stop ≤ y.start)

overlaps-Apart : (x y : Edit) → overlaps x y ≡ false → Apart x y
unfolding overlaps Apart
overlaps-Apart x y h = ground arith

insert_edit-Descends :
    (x : Edit) (es : List Edit) (hi : ℕ)
    → x.start < x.stop
    → x.stop ≤ hi
    → All (Apart x) es
    → Descends hi es
    → Descends hi (insert_edit x es)
unfolding insert_edit Apart
insert_edit-Descends x [] hi h k a d = (h, k, tt)
insert_edit-Descends x (y ∷ ys) hi h k (a, bs) (l, m, d) = elim (Bool-cases (ltb y.start x.start)) [
  | inl q ↦ rw q (h, k, (l, before a (ltb→lt y.start x.start q), d))
  | inr q ↦
      rw q (l, m, insert_edit-Descends x ys y.start h (behind a (ltb→le y.start x.start q)) bs d)
]
  where
    before : (y.stop ≤ x.start) ⊎ (x.stop ≤ y.start) → y.start < x.start → y.stop ≤ x.start
    before (inl a) q = a
    before (inr a) q = absurd (omega arith)

    behind : (y.stop ≤ x.start) ⊎ (x.stop ≤ y.start) → x.start ≤ y.start → x.stop ≤ y.start
    behind (inl a) q = absurd (omega arith)
    behind (inr a) q = a

insert_edit-All :
    (P : Edit → Type 0) (x : Edit) (es : List Edit) → P x → All P es → All P (insert_edit x es)
unfolding insert_edit
insert_edit-All P x [] p a = (p, tt)
insert_edit-All P x (y ∷ ys) p (a, bs) = elim (Bool-cases (ltb y.start x.start)) [
  | inl q ↦ rw q (p, (a, bs))
  | inr q ↦ rw q (a, insert_edit-All P x ys p bs)
]

-- Pairwise apart
abbrev AllApart : List Edit → Type 0
AllApart [] = Unit
AllApart (x ∷ xs) = All (Apart x) xs × AllApart xs

overlap_with-Apart :
    (i : ℕ) (x : Edit) (j : ℕ) (ys : List Edit) → overlap_with i x j ys ≡ none → All (Apart x) ys
unfolding overlap_with
overlap_with-Apart i x j [] h = tt
overlap_with-Apart i x j (y ∷ ys) h = elim (Bool-cases (overlaps x y)) [
  | inl q ↦ absurd (let k : ◌≡◌ {A = Option (ℕ × ℕ)} (some (i, j)) none = rw q at h in cc)
  | inr q ↦ (overlaps-Apart x y q, overlap_with-Apart i x (suc j) ys (rw q at h))
]

overlap_from-AllApart : (i : ℕ) (xs : List Edit) → overlap_from i xs ≡ none → AllApart xs
unfolding overlap_from
overlap_from-AllApart i [] h = tt
overlap_from-AllApart i (x ∷ xs) h = elim (Option-cases (overlap_with i x (suc i) xs)) [
  | inl q ↦ (overlap_with-Apart i x (suc i) xs q, overlap_from-AllApart (suc i) xs (rw q at h))
  | inr (p, q) ↦ absurd (let k : ◌≡◌ {A = Option (ℕ × ℕ)} (some p) none = rw q at h in cc)
]

Apart-sym : (x y : Edit) → Apart x y → Apart y x
unfolding Apart
Apart-sym x y (inl h) = inr h
Apart-sym x y (inr h) = inl h

insert_edit-Apart :
    (x : Edit) (sorted ys : List Edit)
    → All (Apart x) ys
    → All (λ y. All (Apart y) sorted) ys
    → All (λ y. All (Apart y) (insert_edit x sorted)) ys
insert_edit-Apart x sorted [] a b = tt
insert_edit-Apart x sorted (y ∷ ys) (a, c) (b, e) =
    (insert_edit-All (Apart y) x sorted (Apart-sym x y a) b, insert_edit-Apart x sorted ys c e)

sort_onto-Descends :
    (size : ℕ) (sorted xs : List Edit)
    → Descends size sorted
    → All (IsPlaced size) xs
    → AllApart xs
    → All (λ x. All (Apart x) sorted) xs
    → Descends size (sort_onto sorted xs)
unfolding sort_onto
sort_onto-Descends size sorted [] d p a b = d
sort_onto-Descends size sorted (x ∷ xs) d ((h, k), p) (a, a') (b, b') =
    sort_onto-Descends size (insert_edit x sorted) xs (insert_edit-Descends x sorted size h k b d) p
      a' (insert_edit-Apart x sorted xs a b')

none_yet : (xs : List Edit) → All (λ x. All (Apart x) []) xs
none_yet [] = tt
none_yet (x ∷ xs) = (tt, none_yet xs)

insert_edit-Perm : (x : Edit) (es : List Edit) → Perm (insert_edit x es) (x ∷ es)
unfolding insert_edit
insert_edit-Perm x [] = Perm.refl (x ∷ [])
insert_edit-Perm x (y ∷ ys) = elim (Bool-cases (ltb y.start x.start)) [
  | inl q ↦ rw q (Perm.refl (x ∷ y ∷ ys))
  | inr q ↦ rw q (Perm.trans (Perm.cons y (insert_edit-Perm x ys)) (Perm.swap x y ys))
]

sort_onto-Perm : (sorted xs : List Edit) → Perm (sort_onto sorted xs) (xs ++ sorted)
unfolding sort_onto
sort_onto-Perm sorted [] = Perm.refl sorted
sort_onto-Perm sorted (x ∷ xs) =
    Perm.trans (sort_onto-Perm (insert_edit x sorted) xs)
      (Perm.trans (Perm.append_left xs (insert_edit-Perm x sorted)) (perm_middle xs sorted))

-- When validateOverlaps accepts edits whose spans are not empty and lie inside the file, applyEdits
-- gives what the file is with all of them made at once: the sort puts the same edits in an order in
-- which each span ends before the one before it starts, and the outcome is what lies between the
-- spans, as it was, with the new texts in their places.
pub apply_edits-woven :
    (base : Bytes) (es : List Edit)
    → All (IsPlaced (length base)) es
    → validate_overlaps es ≡ none
    → Perm (sort_onto [] es) es
      × Descends (length base) (sort_onto [] es)
      × (apply_edits base es ≡ woven base (length base) (sort_onto [] es))
unfolding validate_overlaps apply_edits
apply_edits-woven base es p h =
    (subst (Perm (sort_onto [] es)) (append-nil es) (sort_onto-Perm [] es), sorted, same)
  where
    sorted : Descends (length base) (sort_onto [] es)
    sorted =
        sort_onto-Descends (length base) [] es tt p (overlap_from-AllApart 0 es h) (none_yet es)

    same : replace_all (sort_onto [] es) base ≡ woven base (length base) (sort_onto [] es)
    same =
        ap (replace_all (sort_onto [] es)) (
          sym (append-nil base)
          ∙ ap (λ b. b ++ []) (sym (take_all (length base) base (omega arith))))
        ∙ (replace_all-woven base (sort_onto [] es) (length base) [] (omega arith) sorted
            ∙ append-nil (woven base (length base) (sort_onto [] es)))
