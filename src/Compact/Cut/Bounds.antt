-- ===== src/Compact/Cut/Bounds.antt =====
-- internal/compact/compact.go: where planCut may cut.
use mixi.Base.{
  ℕ, zero, suc, ◌+◌, ◌≤◌, ◌<◌, ◌≡◌, refl, subst, inl, inr, true, false, not, ◌&&◌, ◌||◌, Option,
  none, some, List, [], ◌∷◌, arith, ltb, leb, ltb→lt, ltb→le, leb→le, leb→lt, lt→ltb, Bool-cases,
  Option-cases, length, drop, and_not-false, and_cases, or_not-false, Bool, false≢true,
}
use mixi.Session.Entry.{Entry}
use mixi.Compact.Tokens.{estimate_entry, sum_of}
use mixi.Compact.Cut.{
  valid_cut, is_settings_entry, at, cost_at, seek_recent, back_to_valid, after, over_settings,
  cut_from, seek_user, is_user_message,
}

-- The two backward loops only move down, and stop at the window's start.
pub back_to_valid-le : (path : List Entry) (start c : ℕ) → back_to_valid path start c ≤ c
unfolding back_to_valid
back_to_valid-le path start zero = omega arith
back_to_valid-le path start (suc c) = ground (arith, back_to_valid-le path start c)

-- What they stop at is valid, or is not past the window's start.
pub back_to_valid-valid_cut :
    (path : List Entry) (start c : ℕ)
    → start < back_to_valid path start c
    → at valid_cut path (back_to_valid path start c) ≡ true
unfolding back_to_valid
back_to_valid-valid_cut path start zero h = absurd (omega arith)
back_to_valid-valid_cut path start (suc c) h =
    elim (Bool-cases (ltb start (suc c) && not (at valid_cut path (suc c)))) [
      | inl q ↦ rw q (back_to_valid-valid_cut path start c (rw q at h))
      | inr q ↦ rw q (and_not-false (lt→ltb start (suc c) (rw q at h)) q)
    ]

pub over_settings-le :
    (path : List Entry) (start : ℕ) (prev : Option ℕ) (c : ℕ) → over_settings path start prev c ≤ c
unfolding over_settings
over_settings-le path start prev zero = omega arith
over_settings-le path start prev (suc c) = ground (arith, over_settings-le path start prev c)

pub over_settings-lt :
    (path : List Entry) (start : ℕ) (prev : Option ℕ) (c : ℕ)
    → start < c
    → start < over_settings path start prev c
unfolding over_settings
over_settings-lt path start prev zero h = omega arith
over_settings-lt path start prev (suc c) h = ground (arith, over_settings-lt path start prev c)

pub over_settings-after :
    (path : List Entry) (start : ℕ) (prev : Option ℕ) (c : ℕ)
    → after prev c ≡ true
    → after prev (over_settings path start prev c) ≡ true
unfolding over_settings
over_settings-after path start prev zero h = h
over_settings-after path start prev (suc c) h =
    elim (Bool-cases (ltb start c && after prev c && at is_settings_entry path c)) [
      | inl q ↦ rw q (over_settings-after path start prev c ((and_cases ((and_cases q).0)).1))
      | inr q ↦ rw q h
    ]

pub seek_recent-range :
    (path : List Entry) (keep start acc n c : ℕ)
    → seek_recent path keep start acc n ≡ some c
    → (start < c) × (c < n)
unfolding seek_recent
seek_recent-range path keep start acc zero c h = absurd cc
seek_recent-range path keep start acc (suc n) c h =
    ground (arith, seek_recent-range path keep start (acc + cost_at path n) n c)

cost-drop :
    (path : List Entry) (n : ℕ)
    → sum_of estimate_entry (drop n path)
      ≡ cost_at path n + sum_of estimate_entry (drop (suc n) path)
unfolding sum_of
cost-drop [] zero = refl
cost-drop [] (suc n) = refl
cost-drop (e ∷ es) zero = refl
cost-drop (e ∷ es) (suc n) = cost-drop es n

-- A longer suffix costs no less.
pub cost-drop_mono :
    (path : List Entry) (m n : ℕ)
    → m ≤ n
    → sum_of estimate_entry (drop n path) ≤ sum_of estimate_entry (drop m path)
unfolding sum_of
cost-drop_mono [] zero zero h = omega arith
cost-drop_mono [] zero (suc n) h = omega arith
cost-drop_mono [] (suc m) zero h = omega arith
cost-drop_mono [] (suc m) (suc n) h = omega arith
cost-drop_mono (e ∷ es) zero zero h = omega arith
cost-drop_mono (e ∷ es) zero (suc n) h = omega (arith, cost-drop_mono es zero n (omega arith))
cost-drop_mono (e ∷ es) (suc m) zero h = absurd (omega arith)
cost-drop_mono (e ∷ es) (suc m) (suc n) h = cost-drop_mono es m n (omega arith)

pub seek_recent-sum_of :
    (path : List Entry) (keep start acc n c : ℕ)
    → acc ≡ sum_of estimate_entry (drop n path)
    → seek_recent path keep start acc n ≡ some c
    → keep ≤ sum_of estimate_entry (drop c path)
unfolding seek_recent
seek_recent-sum_of path keep start acc zero c e h = absurd cc
seek_recent-sum_of path keep start acc (suc n) c e h = elim (Bool-cases (ltb start n)) [
  | inr q ↦ absurd (none_some (rw q at h))
  | inl q ↦ elim (Bool-cases (leb keep (acc + cost_at path n))) [
    | inl k ↦
        let same : some n ≡ some c = rw (q, k) at h in
        let same' : n ≡ c = cc same in
        subst (λ j. keep ≤ sum_of estimate_entry (drop j path)) same'
          (let b : keep ≤ acc + cost_at path n = leb→le keep (acc + cost_at path n) k in
            omega (arith, e, cost-drop path n))
    | inr k ↦
        seek_recent-sum_of path keep start (acc + cost_at path n) n c
          (omega (arith, e, cost-drop path n)) (rw (q, k) at h)
  ]
]
  where
    none_some : {c : ℕ} → none ≡ some c → ⊥
    none_some k = cc

-- How cut_from arrives at its result
pub cut_from_lem :
    (path : List Entry) (keep start : ℕ) (prev : Option ℕ) (c : ℕ)
    → cut_from path keep start prev ≡ some c
    → (s : ℕ) × (seek_recent path keep start 0 (length path) ≡ some s)
      × (start < back_to_valid path start s)
      × (after prev (back_to_valid path start s) ≡ true)
      × (c ≡ over_settings path start prev (back_to_valid path start s))
unfolding cut_from
cut_from_lem path keep start prev c h =
    elim (Option-cases (seek_recent path keep start 0 (length path))) [
      | inl q ↦ absurd (none_some (rw (cut_from, q) at h))
      | inr (s, q) ↦
          elim (Bool-cases (
            leb (back_to_valid path start s) start
            || not (after prev (back_to_valid path start s)))) [
              | inl k ↦ absurd (none_some (rw (cut_from, q, k) at h))
              | inr k ↦ (
                s,
                q,
                ltb_of ((or_not-false k).0),
                (or_not-false k).1,
                some_eq (rw (cut_from, q, k) at h),
              )
            ]
    ]
  where
    none_some : {c : ℕ} → none ≡ some c → ⊥
    none_some k = cc

    some_eq : {a b : ℕ} → some a ≡ some b → b ≡ a
    some_eq k = cc

    ltb_of : {a b : ℕ} → leb a b ≡ false → b < a
    ltb_of {a} {b} k = leb→lt a b k

-- Whether a conversation may go on from here: a valid cut, which settings may stand before
unfoldable pub resumes : List Entry → Bool
resumes [] = false
resumes (e ∷ es) = valid_cut e || (is_settings_entry e && resumes es)

pub resumes-valid_cut :
    (path : List Entry) (c : ℕ) → at valid_cut path c ≡ true → resumes (drop c path) ≡ true
unfolding resumes
resumes-valid_cut [] c h = absurd (false≢true h)
resumes-valid_cut (e ∷ es) zero h = rw h
resumes-valid_cut (e ∷ es) (suc c) h = resumes-valid_cut es c h

resumes-is_settings_entry :
    (path : List Entry) (c : ℕ)
    → at is_settings_entry path c ≡ true
    → resumes (drop (suc c) path) ≡ true
    → resumes (drop c path) ≡ true
unfolding resumes
resumes-is_settings_entry [] c h k = absurd (false≢true h)
resumes-is_settings_entry (e ∷ es) zero h k = elim (Bool-cases (valid_cut e)) [
  | inl q ↦ rw q
  | inr q ↦ rw (q, h, k)
]
resumes-is_settings_entry (e ∷ es) (suc c) h k = resumes-is_settings_entry es c h k

pub resumes-over_settings :
    (path : List Entry) (start : ℕ) (prev : Option ℕ) (c : ℕ)
    → resumes (drop c path) ≡ true
    → resumes (drop (over_settings path start prev c) path) ≡ true
unfolding over_settings
resumes-over_settings path start prev zero h = h
resumes-over_settings path start prev (suc c) h =
    elim (Bool-cases (ltb start c && after prev c && at is_settings_entry path c)) [
      | inl q ↦ rw q (
          resumes-over_settings path start prev c
            (resumes-is_settings_entry path c ((and_cases q).1) h))
      | inr q ↦ rw q h
    ]

pub seek_user-range :
    (path : List Entry) (start n t : ℕ)
    → seek_user path start n ≡ some t
    → (t < n) × (at is_user_message path t ≡ true)
unfolding seek_user
seek_user-range path start zero t h = absurd cc
seek_user-range path start (suc n) t h = elim (Bool-cases (leb start n)) [
  | inr q ↦ absurd (let k : ◌≡◌ {A = Option ℕ} none (some t) = rw q at h in cc)
  | inl q ↦ elim (Bool-cases (at is_user_message path n)) [
    | inl r ↦
        let k : ◌≡◌ {A = Option ℕ} (some n) (some t) = rw (q, r) at h in
        let k' : n ≡ t = cc k in
        subst (λ j. (j < suc n) × (at is_user_message path j ≡ true)) k' (omega arith, r)
    | inr r ↦ let (l, m) = seek_user-range path start n t (rw (q, r) at h) in (omega arith, m)
  ]
]

pub seek_user-nearest :
    (path : List Entry) (start n t i : ℕ)
    → seek_user path start n ≡ some t
    → t < i
    → i < n
    → at is_user_message path i ≡ false
unfolding seek_user
seek_user-nearest path start zero t i h k l = absurd (omega arith)
seek_user-nearest path start (suc n) t i h k l = elim (Bool-cases (leb start n)) [
  | inr q ↦ absurd (let k : ◌≡◌ {A = Option ℕ} none (some t) = rw q at h in cc)
  | inl q ↦ elim (Bool-cases (at is_user_message path n)) [
    | inl r ↦
        let m : ◌≡◌ {A = Option ℕ} (some n) (some t) = rw (q, r) at h in
        let m' : n ≡ t = cc m in absurd (omega arith)
    | inr r ↦ elim (Bool-cases (ltb i n)) [
      | inl e ↦ seek_user-nearest path start n t i (rw (q, r) at h) k (ltb→lt i n e)
      | inr e ↦
          let same : n ≡ i = (let b : n ≤ i = ltb→le i n e in omega arith) in
          subst (λ j. at is_user_message path j ≡ false) same r
    ]
  ]
]
