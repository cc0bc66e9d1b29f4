-- ===== src/Compact/Cut/Plans.antt =====
-- internal/compact/compact.go: what a plan of planCut promises.
use mixi.Base.{
  ℕ, ◌≤◌, ◌<◌, ◌≡◌, refl, sym, ap, ◌∙◌, subst, ◌⊎◌, inl, inr, true, false, false≢true, Option, none,
  some, List, [], arith, ltb, ltb→lt, ltb→le, Bool-cases, Option-cases, length, drop, drop_all,
}
use mixi.Base.Bytes.{Bytes}
use mixi.Session.Entry.{Entry, FileLists}
use mixi.Compact.Tokens.{estimate_entry, sum_of}
use mixi.Compact.Cut.{
  CutPlan, PlanError, nothing_to_compact, previous_not_on_path, is_user_message, at, after,
  last_compaction, back_to_valid, seek_user, cut_from, index_of, plan_at, planned, no_lists,
  split_at, plan_cut,
}
use mixi.Compact.Cut.Bounds.{
  cut_from_lem, back_to_valid-le, back_to_valid-valid_cut, over_settings-le, over_settings-lt,
  over_settings-after, resumes, resumes-valid_cut, resumes-over_settings, seek_user-range,
  seek_user-nearest, seek_recent-range, seek_recent-sum_of, cost-drop_mono,
}

-- The index of the previous compaction entry
abbrev pub prev_idx : List Entry → Option ℕ
prev_idx path = elim (last_compaction path (length path)) [ none ↦ none | some p ↦ some p.idx ]

abbrev Planned : List Entry → ℕ → CutPlan → Type 0
Planned path keep p =
    (cut_from path keep p.window_start (prev_idx path) ≡ some p.cut_idx)
    × (p ≡ plan_at path p.window_start p.prev_summary p.prev_details p.cut_idx)

planned_lem :
    (path : List Entry) (keep start : ℕ) (summary : Bytes) (lists : FileLists) (prev : Option ℕ)
    (p : CutPlan)
    → prev_idx path ≡ prev
    → planned path start summary lists (cut_from path keep start prev) ≡ inr p
    → Planned path keep p
planned_lem path keep start summary lists prev p e h =
    elim (Option-cases (cut_from path keep start prev)) [
      | inl q ↦
          absurd (
            let k : ◌≡◌ {A = PlanError ⊎ CutPlan} (inl nothing_to_compact) (inr p) = rw q at h in
            cc)
      | inr (c, q) ↦
          let k : ◌≡◌ {A = PlanError ⊎ CutPlan} (inr (plan_at path start summary lists c)) (inr p) =
            rw q at h in
          let k' : plan_at path start summary lists c ≡ p = cc k in
          subst (Planned path keep) k' (ap (cut_from path keep start) e ∙ q, refl)
    ]

plan_cut_lem :
    (path : List Entry) (keep : ℕ) (p : CutPlan) → plan_cut path keep ≡ inr p → Planned path keep p
unfolding plan_cut
plan_cut_lem path keep p h = elim (Option-cases (last_compaction path (length path))) [
  | inl q ↦ planned_lem path keep 0 [] no_lists none p (rw (prev_idx, q)) (rw (plan_cut, q) at h)
  | inr (v, q) ↦ elim (Option-cases (index_of path v.first_kept_entry_id)) [
    | inl r ↦ absurd (
        let k : ◌≡◌ {A = PlanError ⊎ CutPlan} (inl (previous_not_on_path v.first_kept_entry_id))
            (inr p) =
          rw (plan_cut, q, r) at h in
        cc)
    | inr (start, r) ↦
        planned_lem path keep start v.summary v.details (some v.idx) p (rw (prev_idx, q))
          (rw (plan_cut, q, r) at h)
  ]
]

-- A plan cuts inside the window, before the path's end and after the previous compaction entry,
-- if there is one.
pub plan_cut-window :
    (path : List Entry) (keep : ℕ) (p : CutPlan)
    → plan_cut path keep ≡ inr p
    → (p.window_start < p.cut_idx)
      × (p.cut_idx < length path)
      × (after (prev_idx path) p.cut_idx ≡ true)
plan_cut-window path keep p h =
    let (d, e) = plan_cut_lem path keep p h in
    let (s, q, l, a, c) = cut_from_lem path keep p.window_start (prev_idx path) p.cut_idx d in
    let r = seek_recent-range path keep p.window_start 0 (length path) s q in
    let b = back_to_valid-le path p.window_start s in
    let o =
      over_settings-le path p.window_start (prev_idx path) (back_to_valid path p.window_start s) in
    let m =
      over_settings-lt path p.window_start (prev_idx path) (back_to_valid path p.window_start s)
        l in
    (
      omega arith,
      omega arith,
      subst (λ j. after (prev_idx path) j ≡ true) (sym c)
          (over_settings-after path p.window_start (prev_idx path)
            (back_to_valid path p.window_start s) a),
    )

-- The entries that a plan keeps are estimated at no fewer tokens than asked for.
pub plan_cut-keep_recent :
    (path : List Entry) (keep : ℕ) (p : CutPlan)
    → plan_cut path keep ≡ inr p
    → keep ≤ sum_of estimate_entry (drop p.cut_idx path)
unfolding sum_of
plan_cut-keep_recent path keep p h =
    let (d, e) = plan_cut_lem path keep p h in
    let (s, q, l, a, c) = cut_from_lem path keep p.window_start (prev_idx path) p.cut_idx d in
    let r =
      seek_recent-sum_of path keep p.window_start 0 (length path) s (sym (cost-drop_all path)) q in
    let b = back_to_valid-le path p.window_start s in
    let o =
      over_settings-le path p.window_start (prev_idx path) (back_to_valid path p.window_start s) in
    let m = cost-drop_mono path p.cut_idx s (omega arith) in omega arith
  where
    cost-drop_all : (path : List Entry) → sum_of estimate_entry (drop (length path) path) ≡ 0
    cost-drop_all path = rw (drop_all (length path) path (omega arith), sum_of)

-- What a plan keeps begins, after settings entries if there are any, with a message that is no tool
-- result, a custom message or a branch summary.
pub plan_cut-resumes :
    (path : List Entry) (keep : ℕ) (p : CutPlan)
    → plan_cut path keep ≡ inr p
    → resumes (drop p.cut_idx path) ≡ true
plan_cut-resumes path keep p h =
    let (d, e) = plan_cut_lem path keep p h in
    let (s, q, l, a, c) = cut_from_lem path keep p.window_start (prev_idx path) p.cut_idx d in
    let v =
      resumes-valid_cut path (back_to_valid path p.window_start s)
        (back_to_valid-valid_cut path p.window_start s l) in
    subst (λ j. resumes (drop j path) ≡ true) (sym c)
      (resumes-over_settings path p.window_start (prev_idx path)
        (back_to_valid path p.window_start s) v)

split_at_lem :
    (path : List Entry) (start cut t : ℕ)
    → split_at path start cut ≡ some t
    → (at is_user_message path cut ≡ false) × (seek_user path start cut ≡ some t) × (start < t)
unfolding split_at
split_at_lem path start cut t h = elim (Bool-cases (at is_user_message path cut)) [
  | inl q ↦ absurd (none_some (rw (split_at, q) at h))
  | inr q ↦ elim (Option-cases (seek_user path start cut)) [
    | inl r ↦ absurd (none_some (rw (split_at, q, r) at h))
    | inr (u, r) ↦ elim (Bool-cases (ltb start u)) [
      | inr w ↦ absurd (none_some (rw (split_at, q, r, w) at h))
      | inl w ↦
          let k : ◌≡◌ {A = Option ℕ} (some u) (some t) = rw (split_at, q, r, w) at h in
          (q, r ∙ k, subst (λ j. start < j) (some_eq k) (ltb→lt start u w))
    ]
  ]
]
  where
    none_some : {t : ℕ} → none ≡ some t → ⊥
    none_some k = cc

    some_eq : {a b : ℕ} → some a ≡ some b → a ≡ b
    some_eq k = cc

-- the turn that a plan splits is the one that split_at finds
turn_start_lem :
    (path : List Entry) (keep : ℕ) (p : CutPlan)
    → plan_cut path keep ≡ inr p
    → p.split_turn ≡ true
    → split_at path p.window_start p.cut_idx ≡ some p.turn_start_idx
turn_start_lem path keep p h t = elim (Option-cases (split_at path p.window_start p.cut_idx)) [
  | inl q ↦ absurd (false≢true (sym (no_turn q) ∙ t))
  | inr (u, q) ↦ q ∙ ap some (sym (turn q))
]
  where
    same : p ≡ plan_at path p.window_start p.prev_summary p.prev_details p.cut_idx
    same = (plan_cut_lem path keep p h).1

    no_turn : split_at path p.window_start p.cut_idx ≡ none → p.split_turn ≡ false
    no_turn q = ap (λ x. x.split_turn) same ∙ rw (plan_at, q)

    turn : {u : ℕ} → split_at path p.window_start p.cut_idx ≡ some u → p.turn_start_idx ≡ u
    turn q = ap (λ x. x.turn_start_idx) same ∙ rw (plan_at, q)

-- When a plan splits a turn, a user message stands past the window's start and before the cut, and
-- no entry after that message up to the cut, the one at the cut included, is another.
pub plan_cut-split_turn :
    (path : List Entry) (keep : ℕ) (p : CutPlan) (i : ℕ)
    → plan_cut path keep ≡ inr p
    → p.split_turn ≡ true
    → p.turn_start_idx < i
    → i ≤ p.cut_idx
    → (p.window_start < p.turn_start_idx)
      × (p.turn_start_idx < p.cut_idx)
      × (at is_user_message path p.turn_start_idx ≡ true)
      × (at is_user_message path i ≡ false)
plan_cut-split_turn path keep p i h t k l =
    let (q, r, w) =
      split_at_lem path p.window_start p.cut_idx p.turn_start_idx
        (turn_start_lem path keep p h t) in
    let (m, u) = seek_user-range path p.window_start p.cut_idx p.turn_start_idx r in
    (
      w,
      m,
      u,
      elim (Bool-cases (ltb i p.cut_idx)) [
        | inl e ↦
            seek_user-nearest path p.window_start p.cut_idx p.turn_start_idx i r k
              (ltb→lt i p.cut_idx e)
        | inr e ↦
            let same : p.cut_idx ≡ i =
              (let b : p.cut_idx ≤ i = ltb→le i p.cut_idx e in omega arith) in
            subst (λ j. at is_user_message path j ≡ false) same q
      ],
    )
