-- ===== src/Perm/Glob/Greedy.antt =====
-- internal/perm/globmatch.go: the leftmost search of `wildcardMatch` misses no match.
use mixi.Base.{
  ℕ, zero, suc, ◌+◌, ◌≤◌, ◌≡◌, refl, sym, ap, ◌∙◌, subst, inl, inr, true, false, false≢true, Option,
  none, some, List, [], ◌∷◌, ◌++◌, append_assoc, arith, ◌==◌, Bool-cases, Option-cases, length,
  drop, length-append, ◌↔◌, drop-append,
}
use mixi.Base.Bytes.{
  Bytes, bytes_eq, has_prefix, has_suffix, index, bytes_eq_refl, eq_of_bytes_eq, has_prefix-append,
  append-of_has_prefix, bytes_eq_iff, cons_head, split,
}
use mixi.Perm.Glob.{star, scan_parts, wildcard_parts, wildcard_match}

-- What a pattern means, byte by byte: a star stands for any run of bytes, any other byte for itself.
unfoldable pub Matches : Bytes → Bytes → Type 0
Matches [] s = s ≡ []
Matches (c ∷ p) s = elim (c == star) [
  | true ↦ (gap : Bytes) × (rest : Bytes) × (s ≡ gap ++ rest) × Matches p rest
  | false ↦ (rest : Bytes) × (s ≡ c ∷ rest) × Matches p rest
]

-- What the parts after the first mean: each stands behind a gap, and the last ends the text.
abbrev Gaps : List Bytes → Bytes → Type 0
Gaps [] s = ⊥
Gaps (last ∷ []) s = (gap : Bytes) × (s ≡ gap ++ last)
Gaps (part ∷ next ∷ rest) s =
    (gap : Bytes) × (t : Bytes) × (s ≡ gap ++ (part ++ t)) × Gaps (next ∷ rest) t

abbrev Parts : List Bytes → Bytes → Type 0
Parts [] s = s ≡ []
Parts (first ∷ []) s = s ≡ first
Parts (first ∷ next ∷ rest) s = (t : Bytes) × (s ≡ first ++ t) × Gaps (next ∷ rest) t

Gaps-widen : (ps : List Bytes) (x s : Bytes) → Gaps ps s → Gaps ps (x ++ s)
Gaps-widen [] x s g = g
Gaps-widen (last ∷ []) x s (gap, e) = (x ++ gap, ap (λ t. x ++ t) e ∙ sym (append_assoc x gap last))
Gaps-widen (part ∷ next ∷ rest) x s (gap, t, e, g) =
    (x ++ gap, t, ap (λ t. x ++ t) e ∙ sym (append_assoc x gap (part ++ t)), g)

drop-append_le : (n : ℕ) (xs ys : Bytes) → n ≤ length xs → drop n (xs ++ ys) ≡ drop n xs ++ ys
drop-append_le zero xs ys h = refl
drop-append_le (suc n) [] ys h = absurd (omega arith)
drop-append_le (suc n) (x ∷ xs) ys h = drop-append_le n xs ys (omega arith)

index-of_has_prefix : (s p : Bytes) → has_prefix s p ≡ true → index s p ≡ some 0
unfolding index
index-of_has_prefix [] p h = rw h
index-of_has_prefix (c ∷ s) p h = rw h

abbrev Found : Bytes → Bytes → Bytes → Type 0
Found p t s = (i : ℕ) × (y : Bytes) × (index s p ≡ some i) × (drop (i + length p) s ≡ y ++ t)

index_at_once :
    (gap p t : Bytes) → has_prefix (gap ++ (p ++ t)) p ≡ true → Found p t (gap ++ (p ++ t))
index_at_once gap p t h = (
  0,
  drop (length p) (gap ++ p),
  index-of_has_prefix _ p h,
  rw (← append_assoc gap p t) (
      ap (λ n. drop n ((gap ++ p) ++ t)) (omega arith)
      ∙ drop-append_le (length p) (gap ++ p) t (omega (arith, length-append gap p))),
)

-- The first occurrence of `p` begins no later than any other.
index-append : (gap p t : Bytes) → Found p t (gap ++ (p ++ t))
unfolding index
index-append [] p t = index_at_once [] p t (has_prefix-append p t)
index-append (c ∷ gap) p t = elim (Bool-cases (has_prefix (c ∷ (gap ++ (p ++ t))) p)) [
  | inl h ↦ index_at_once (c ∷ gap) p t h
  | inr h ↦
      let (i, y, at_i, after) = index-append gap p t in
      let e : suc i + length p ≡ suc (i + length p) = omega arith in
      (
        suc i,
        y,
        rw (h, index) (rw (at_i, index)),
        ap (λ n. drop n (c ∷ (gap ++ (p ++ t)))) e ∙ after,
      )
]

index_later :
    (c : ℕ) (s p : Bytes) (o : Option ℕ) (i : ℕ)
    → ((j : ℕ) → o ≡ some j → (gap : Bytes) × (s ≡ gap ++ (p ++ drop (j + length p) s)))
    → elim o [ none ↦ none | some j ↦ some (suc j) ] ≡ some i
    → (gap : Bytes) × (c ∷ s ≡ gap ++ (p ++ drop (i + length p) (c ∷ s)))
index_later c s p none i ih k = cc
index_later c s p (some j) i ih k =
    let (gap, q) = ih j refl in
    let e : suc (j + length p) ≡ i + length p = ground arith in
    (c ∷ gap, ap (λ t. c ∷ t) q ∙ ap (λ n. c ∷ (gap ++ (p ++ drop n (c ∷ s)))) e)

index_sound :
    (s p : Bytes) (i : ℕ)
    → index s p ≡ some i
    → (gap : Bytes) × (s ≡ gap ++ (p ++ drop (i + length p) s))
unfolding index
index_sound [] p i h = elim (Bool-cases (has_prefix [] p)) [
  | inl e ↦ ([], append-of_has_prefix [] p e ∙ ap (λ n. p ++ drop n []) (ground arith))
  | inr e ↦ cc
]
index_sound (c ∷ s) p i h = elim (Bool-cases (has_prefix (c ∷ s) p)) [
  | inl e ↦ ([], append-of_has_prefix (c ∷ s) p e ∙ ap (λ n. p ++ drop n (c ∷ s)) (ground arith))
  | inr e ↦ index_later c s p (index s p) i (index_sound s p) (rw (e, index) at h)
]

has_suffix-append : (gap p : Bytes) → has_suffix (gap ++ p) p ≡ true
unfolding has_suffix
has_suffix-append [] [] = refl
has_suffix-append [] (d ∷ p) = rw (bytes_eq_refl (d ∷ p))
has_suffix-append (c ∷ gap) p = ground (arith, has_suffix-append gap p)

has_suffix_sound : (s p : Bytes) → has_suffix s p ≡ true → (gap : Bytes) × (s ≡ gap ++ p)
unfolding has_suffix
has_suffix_sound [] p h = ([], eq_of_bytes_eq [] p h)
has_suffix_sound (c ∷ s) p h = elim (Bool-cases (bytes_eq (c ∷ s) p)) [
  | inl e ↦ ([], eq_of_bytes_eq (c ∷ s) p e)
  | inr e ↦ let (gap, q) = has_suffix_sound s p (rw e at h) in (c ∷ gap, ap (λ t. c ∷ t) q)
]

scan_parts_complete : (ps : List Bytes) (s : Bytes) → Gaps ps s → scan_parts ps s ≡ true
unfolding scan_parts
scan_parts_complete [] s g = absurd g
scan_parts_complete (last ∷ []) s (gap, e) = rw e (has_suffix-append gap last)
scan_parts_complete (part ∷ next ∷ rest) s (gap, t, e, g) =
    let (i, y, at_i, after) = index-append gap part t in
    subst (λ u. scan_parts (part ∷ next ∷ rest) u ≡ true) (sym e)
      (rw (at_i, scan_parts)
        (rw after (scan_parts_complete (next ∷ rest) (y ++ t) (Gaps-widen (next ∷ rest) y t g))))

scan_parts_sound : (ps : List Bytes) (s : Bytes) → scan_parts ps s ≡ true → Gaps ps s
unfolding scan_parts
scan_parts_sound [] s h = absurd (false≢true h)
scan_parts_sound (last ∷ []) s h = has_suffix_sound s last h
scan_parts_sound (part ∷ next ∷ rest) s h = elim (Option-cases (index s part)) [
  | inl e ↦ absurd (false≢true (rw (e, scan_parts) at h))
  | inr (i, e) ↦
      let (gap, q) = index_sound s part i e in
      (gap, drop (i + length part) s, q, scan_parts_sound (next ∷ rest) _ (rw (e, scan_parts) at h))
]

Parts-cons_head :
    (c : ℕ) (ps : List Bytes) (s : Bytes)
    → Parts (cons_head c ps) s ↔ ((rest : Bytes) × (s ≡ c ∷ rest) × Parts ps rest)
unfolding cons_head
Parts-cons_head c [] s = (λ e. ([], e, refl), λ (rest, e, f). e ∙ ap (λ t. c ∷ t) f)
Parts-cons_head c (first ∷ []) s = (λ e. (first, e, refl), λ (rest, e, f). e ∙ ap (λ t. c ∷ t) f)
Parts-cons_head c (first ∷ next ∷ rest) s =
    (λ (t, e, g). (first ++ t, e, (t, refl, g)), λ (u, e, k). (k.0, e ∙ ap (λ v. c ∷ v) k.1, k.2))

split-cons : (p : Bytes) → (first : Bytes) × (rest : List Bytes) × (split star p ≡ first ∷ rest)
unfolding split cons_head
split-cons [] = ([], [], refl)
split-cons (c ∷ p) =
    let (first, rest, e) = split-cons p in
    elim (Bool-cases (c == star)) [
      | inl h ↦ ([], split star p, rw h)
      | inr h ↦ (c ∷ first, rest, rw h (rw e))
    ]

-- A star before the first part.
Parts-star :
    (first : Bytes) (rest : List Bytes) (s : Bytes)
    → Parts ([] ∷ first ∷ rest) s
      ↔ ((gap : Bytes) × (tail : Bytes) × (s ≡ gap ++ tail) × Parts (first ∷ rest) tail)
Parts-star first [] s = (
  λ (t, e, g). (g.0, first, e ∙ g.1, refl),
  λ (gap, tail, e, f). (gap ++ tail, e, (gap, ap (λ t. gap ++ t) f)),
)
Parts-star first (next ∷ rest) s = (
  λ (t, e, g). (g.0, first ++ g.1, e ∙ g.2, (g.1, refl, g.3)),
  λ (gap, tail, e, k). (gap ++ tail, e, (gap, k.0, ap (λ t. gap ++ t) k.1, k.2)),
)

Matches-eq-Parts : (p s : Bytes) → Matches p s ↔ Parts (split star p) s
unfolding Matches split
Matches-eq-Parts [] s = (λ e. e, λ e. e)
Matches-eq-Parts (c ∷ p) s = elim (Bool-cases (c == star)) [
  | inl h ↦
      let (first, rest, e) = split-cons p in
      rw (h, Matches)
        (rw e (
          λ (gap, tail, q, m).
              (Parts-star first rest s).1 (gap, tail, q, rw e at ((Matches-eq-Parts p tail).0 m)),
          λ k.
              let (gap, tail, q, m) = (Parts-star first rest s).0 k in
              (gap, tail, q, (Matches-eq-Parts p tail).1 (rw e m)),
        ))
  | inr h ↦
      rw (h, Matches)
        (
          λ (tail, q, m).
              (Parts-cons_head c (split star p) s).1 (tail, q, (Matches-eq-Parts p tail).0 m),
          λ k.
              let (tail, q, m) = (Parts-cons_head c (split star p) s).0 k in
              (tail, q, (Matches-eq-Parts p tail).1 m),
        )
]

split_single : (p first : Bytes) → split star p ≡ first ∷ [] → first ≡ p
unfolding split cons_head
split_single [] first e = cc
split_single (c ∷ p) first e =
    let (f, r, q) = split-cons p in
    elim (Bool-cases (c == star)) [
      | inl h ↦ let e' : [] ∷ split star p ≡ first ∷ [] = rw h at e in cc (e', q)
      | inr h ↦
          let e' : (c ∷ f) ∷ r ≡ first ∷ [] = rw q at (rw h at e) in
          let q' : split star p ≡ f ∷ [] = cc (q, e') in cc (e', split_single p f q')
    ]

wildcard_parts_iff :
    (p : Bytes) (ps : List Bytes) (s : Bytes)
    → split star p ≡ ps
    → (wildcard_parts p ps s ≡ true) ↔ Parts ps s
unfolding wildcard_parts
wildcard_parts_iff p [] s e = let (f, r, q) = split-cons p in cc
wildcard_parts_iff p (first ∷ []) s e =
    rw (← split_single p first e)
      (λ h. sym (eq_of_bytes_eq first s h), λ h. (bytes_eq_iff first s).1 (sym h))
wildcard_parts_iff p (first ∷ next ∷ rest) s e = (
  λ h. elim (Bool-cases (has_prefix s first)) [
    | inl g ↦ (
      drop (length first) s,
      append-of_has_prefix s first g,
      scan_parts_sound (next ∷ rest) _ (rw g at h),
    )
    | inr g ↦ absurd (false≢true (rw g at h))
  ],
  λ (t, q, g).
      rw q (rw (has_prefix-append first t, drop-append) (scan_parts_complete (next ∷ rest) t g)),
)

-- `wildcardMatch` answers true exactly on the strings that the pattern describes, a star standing
-- for any run of bytes and every other byte for itself.
pub wildcard_match_iff : (p s : Bytes) → (wildcard_match p s ≡ true) ↔ Matches p s
unfolding wildcard_match
wildcard_match_iff p s = (
  λ h. (Matches-eq-Parts p s).1 ((wildcard_parts_iff p (split star p) s refl).0 h),
  λ m. (wildcard_parts_iff p (split star p) s refl).1 ((Matches-eq-Parts p s).0 m),
)
