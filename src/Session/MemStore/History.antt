-- ===== src/Session/MemStore/History.antt =====
-- internal/session/memstore.go: what appends and moves of the leaf keep.
use mixi.Session.Tree.Paths.{IsKnown-cons, path_to_root-add_ne, path_to_root-add_self, known_ne}
use mixi.Base.{
  ◌≡◌, sym, subst, ◌≢◌, ◌⊎◌, Bool, true, false, none, [], ◌∷◌, arith, inl, inr, some, ap,
  Option-cases, List, ◌∙◌, ◌++◌, refl, Bool-cases,
}
use mixi.Base.Bytes.{Bytes, bytes_eq_refl}
use mixi.Session.Entry.{Entry, Body, leaf}
use mixi.Session.Tree.{
  fill_base, has, path_to_root, is_position, validate_leaf_target, Index, find, add, next_leaf,
}
use mixi.Session.Tree.Paths.{IsKnown, Rooted}
use mixi.Session.MemStore.{
  Draw, MemStore, filled, append, fill_base, StoreError, leaf_entry, set_leaf,
}

-- The index is a tree, and the leaf is nothing yet or an entry of it.
pub record IsTree (x : Index) : Type 0 where
  pub rooted : Rooted x.entries
  pub leaf_known : (x.leaf_id ≡ []) ⊎ IsKnown x.entries x.leaf_id

-- The id that the draw gives is new and not empty.
pub record IsFresh (d : Draw) (e : Entry) (s : MemStore) : Type 0 where
  pub not_taken : has s.index (filled d e s).id ≡ false
  pub not_empty : (filled d e s).id ≢ []

-- Only SetLeaf makes leaf entries.
abbrev pub is_leaf : Body → Bool
is_leaf (leaf target) = true
is_leaf _ = false

pub find-none : (x : Index) (id : Bytes) → has x id ≡ false → find id x.entries ≡ none
unfolding has
find-none x id h = ground arith

next_leaf-cases :
    (e : Entry) (old : Bytes)
    → is_leaf e.body ≡ false
    → (next_leaf e old ≡ e.id) ⊎ (next_leaf e old ≡ old)
unfolding next_leaf
next_leaf-cases e old h = ground arith

next_leaf_position : (e : Entry) (old : Bytes) → is_position e.body ≡ true → next_leaf e old ≡ e.id
unfolding next_leaf is_position
next_leaf_position e old h = ground arith

IsTree-add :
    (e : Entry) (x : Index)
    → e.id ≢ []
    → find e.id x.entries ≡ none
    → e.parent ≡ x.leaf_id
    → (next_leaf e x.leaf_id ≡ []) ⊎ IsKnown (e ∷ x.entries) (next_leaf e x.leaf_id)
    → IsTree x
    → IsTree (add e x)
unfolding add
IsTree-add e x n fresh p l t = record {
  rooted = (n, fresh, subst (λ i. (i ≡ []) ⊎ IsKnown x.entries i) (sym p) t.leaf_known, t.rooted);
  leaf_known = l;
}

leaf_id-add : (e : Entry) (x : Index) → (add e x).leaf_id ≡ next_leaf e x.leaf_id
unfolding add
leaf_id-add e x = refl

module _ (d : Draw) (e : Entry) (s : MemStore) where
  pub appended : (append d e s).0 ≡ none → (append d e s).1.index ≡ add (filled d e s) s.index
  unfolding append
  appended h = ground arith

  pub append_error : (err : StoreError) → (append d e s).0 ≡ some err → (append d e s).1 ≡ s
  unfolding append
  append_error err h = ground arith

  parent_filled : (filled d e s).parent ≡ s.index.leaf_id
  unfolding fill_base
  parent_filled = refl

  pub body_filled : (filled d e s).body ≡ e.body
  unfolding fill_base
  body_filled = refl

  module _ (t : IsTree s.index) (fresh : IsFresh d e s) where
    new_fresh : find (filled d e s).id s.index.entries ≡ none
    new_fresh = find-none s.index _ fresh.not_taken

    IsKnown-new : IsKnown (filled d e s ∷ s.index.entries) (filled d e s).id
    unfolding find
    IsKnown-new = (filled d e s, rw (bytes_eq_refl (filled d e s).id))

    leaf_kept : (s.index.leaf_id ≡ []) ⊎ IsKnown (filled d e s ∷ s.index.entries) s.index.leaf_id
    leaf_kept = elim t.leaf_known [
      | inl z ↦ inl z
      | inr k ↦ inr (IsKnown-cons s.index.leaf_id (filled d e s) s.index.entries new_fresh k)
    ]

    leaf_after :
        is_leaf e.body ≡ false
        → (next_leaf (filled d e s) s.index.leaf_id ≡ [])
          ⊎ IsKnown (filled d e s ∷ s.index.entries) (next_leaf (filled d e s) s.index.leaf_id)
    leaf_after nl =
        elim (next_leaf-cases (filled d e s) s.index.leaf_id (ap is_leaf body_filled ∙ nl)) [
          | inl q ↦ inr (subst (IsKnown (filled d e s ∷ s.index.entries)) (sym q) IsKnown-new)
          | inr q ↦
              subst (λ i. (i ≡ []) ⊎ IsKnown (filled d e s ∷ s.index.entries) i) (sym q) leaf_kept
        ]

    add-IsTree :
        (next_leaf (filled d e s) s.index.leaf_id ≡ [])
          ⊎ IsKnown (filled d e s ∷ s.index.entries) (next_leaf (filled d e s) s.index.leaf_id)
        → IsTree (add (filled d e s) s.index)
    add-IsTree l = IsTree-add (filled d e s) s.index fresh.not_empty new_fresh parent_filled l t

    append-cases : (append d e s).1 ≡ s ⊎ ((append d e s).1.index ≡ add (filled d e s) s.index)
    append-cases = elim (Option-cases (append d e s).0) [
      | inl q ↦ inr (appended q)
      | inr (err, q) ↦ inl (append_error err q)
    ]

    -- Append keeps the index a tree with a known leaf, whether it succeeds or not, if the id drawn
    -- is new and the entry is no leaf entry, which only SetLeaf makes.
    pub append-IsTree : is_leaf e.body ≡ false → IsTree (append d e s).1.index
    append-IsTree nl = elim append-cases [
      | inl q ↦ subst (λ (x : MemStore). IsTree x.index) (sym q) t
      | inr q ↦ subst IsTree (sym q) (add-IsTree (leaf_after nl))
    ]

    Rooted-add : Rooted (add (filled d e s) s.index).entries
    unfolding add
    Rooted-add = (
      fresh.not_empty,
      new_fresh,
      subst (λ i. (i ≡ []) ⊎ IsKnown s.index.entries i) (sym parent_filled) t.leaf_known,
      t.rooted,
    )

    -- In a session that is a tree, and with an id that is new, a successful Append of an entry that
    -- takes part in the conversation moves the leaf to it, and
    -- the path to the new leaf is the path to the old one and the entry.
    pub append_extends_path :
        (p : List Entry)
        → (append d e s).0 ≡ none
        → is_position e.body ≡ true
        → path_to_root s.index s.index.leaf_id ≡ some p
        → path_to_root (append d e s).1.index (append d e s).1.index.leaf_id
          ≡ some (p ++ filled d e s ∷ [])
    append_extends_path p done pos h =
        subst (λ x. path_to_root x x.leaf_id ≡ some (p ++ filled d e s ∷ [])) (sym (appended done))
          (subst (λ i. path_to_root (add (filled d e s) s.index) i ≡ some (p ++ filled d e s ∷ []))
            (sym (
              leaf_id-add (filled d e s) s.index
              ∙ next_leaf_position (filled d e s) s.index.leaf_id
                  (ap is_position body_filled ∙ pos)))
            (path_to_root-add_self (filled d e s) s.index p Rooted-add
              (ap (path_to_root s.index) parent_filled ∙ h)))

    -- In a session that is a tree, and with an id that is new, Append never changes the path to an
    -- entry that was there before.
    pub append_keeps_history :
        (id : Bytes) (p : List Entry)
        → IsKnown s.index.entries id
        → path_to_root s.index id ≡ some p
        → path_to_root (append d e s).1.index id ≡ some p
    append_keeps_history id p k h = elim append-cases [
      | inl q ↦ subst (λ (x : MemStore). path_to_root x.index id ≡ some p) (sym q) h
      | inr q ↦
          subst (λ x. path_to_root x id ≡ some p) (sym q)
            (path_to_root-add_ne (filled d e s) s.index id p Rooted-add
              (known_ne id (filled d e s) s.index.entries new_fresh k) h)
    ]

validate_none :
    (target : Bytes) (x : Index)
    → validate_leaf_target target x ≡ none
    → (f : Entry) × (find target x.entries ≡ some f) × (is_position f.body ≡ true)
unfolding validate_leaf_target
validate_none target x h = elim (Option-cases (find target x.entries)) [
  | inl q ↦ cc (rw (q, validate_leaf_target) at h)
  | inr (f, q) ↦ elim (Bool-cases (is_position f.body)) [
    | inl b ↦ (f, q, b)
    | inr b ↦ cc (rw b at (rw (q, validate_leaf_target) at h))
  ]
]

module _ (d : Draw) (target : Bytes) (s : MemStore) where
  set_leaf_valid :
      (set_leaf d target s).0 ≡ none
      → (validate_leaf_target target s.index ≡ none)
        × (set_leaf d target s ≡ append d (leaf_entry target) s)
  unfolding set_leaf
  set_leaf_valid h = elim (Option-cases (validate_leaf_target target s.index)) [
    | inl q ↦ (q, rw q)
    | inr (e, q) ↦ cc (rw q at h)
  ]

  leaf_after_move : next_leaf (filled d (leaf_entry target) s) s.index.leaf_id ≡ target
  unfolding next_leaf fill_base
  leaf_after_move = refl

  -- A successful SetLeaf moves the leaf to its target, which is an entry that takes part in the
  -- conversation; it keeps the index a tree, and the path to the target.
  pub set_leaf_moves :
      (p : List Entry)
      → IsTree s.index
      → IsFresh d (leaf_entry target) s
      → (set_leaf d target s).0 ≡ none
      → path_to_root s.index target ≡ some p
      → ((f : Entry) × (find target s.index.entries ≡ some f) × (is_position f.body ≡ true))
        × IsTree (set_leaf d target s).1.index
        × ((set_leaf d target s).1.index.leaf_id ≡ target)
        × (path_to_root (set_leaf d target s).1.index target ≡ some p)
  set_leaf_moves p t fresh h path =
      let (v, q) = set_leaf_valid h in
      let (f, k, pos) = validate_none target s.index v in
      let e = leaf_entry target in
      let done : (append d e s).0 ≡ none = ap (λ r. r.0) (sym q) ∙ h in
      (
        (f, k, pos),
        subst (λ r. IsTree r.1.index) (sym q)
            (subst IsTree (sym (appended d e s done)) (
              add-IsTree d e s t fresh (
                inr (
                  subst (IsKnown (filled d e s ∷ s.index.entries)) (sym leaf_after_move) (
                    IsKnown-cons target (filled d e s) s.index.entries (new_fresh d e s t fresh)
                      (f, k)))))),
        subst (λ r. r.1.index.leaf_id ≡ target) (sym q)
            (ap (λ (x : Index). x.leaf_id) (appended d e s done)
              ∙ (leaf_id-add (filled d e s) s.index ∙ leaf_after_move)),
        subst (λ r. path_to_root r.1.index target ≡ some p) (sym q)
            (append_keeps_history d e s t fresh target p (f, k) path),
      )
