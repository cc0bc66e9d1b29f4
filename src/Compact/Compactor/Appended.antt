-- ===== src/Compact/Compactor/Appended.antt =====
-- internal/compact/compact.go: what a compaction does to the session.
use mixi.Base.{
  ◌≡◌, refl, sym, ap, subst, ◌⊎◌, inl, inr, true, Option, none, some, List, [], ◌∷◌, ◌++◌,
}
use mixi.Base.Bytes.{Bytes}
use mixi.Session.Entry.{Entry}
use mixi.Session.Tree.{path_to_root, is_position}
use mixi.Session.MemStore.{Draw, StoreError, MemStore, append, filled}
use mixi.Session.MemStore.History.{IsTree, IsFresh, append_extends_path, append_error}
use mixi.Compact.Cut.{CutPlan, PlanError}
use mixi.Compact.Compactor.{
  Compactor, Request, CompactError, entry_of, stored, append_summary, carry_out, plan_for, on_path,
  summary_of, compact,
}

-- What an outcome that is an error leaves of the store
abbrev Unchanged : MemStore → (CompactError ⊎ Entry) × MemStore → Type 0
Unchanged s (inl err, s') = s' ≡ s
Unchanged s (inr e, s') = Unit

-- What an outcome that is an entry did: the store took in the draft that was made from a path
abbrev Took : Draw → Request → List Entry → MemStore → (CompactError ⊎ Entry) × MemStore → Type 0
Took d req path s (inl err, s') = Unit
Took d req path s (inr e, s') =
    (p : CutPlan) × (summary : Bytes) × ((append d (entry_of req path p summary) s).0 ≡ none)
    × (e ≡ filled d (entry_of req path p summary) s)
    × (s' ≡ (append d (entry_of req path p summary) s).1)

module _ (d : Draw) (s : MemStore) where
  stored-Unchanged :
      (x : Entry) (r : Option StoreError × MemStore)
      → ((err : StoreError) → r.0 ≡ some err → r.1 ≡ s)
      → Unchanged s (stored d x s r)
  stored-Unchanged x (none, s') h = tt
  stored-Unchanged x (some err, s') h = h err refl

  append_summary-Unchanged :
      (req : Request) (path : List Entry) (p : CutPlan) (x : CompactError ⊎ Bytes)
      → Unchanged s (append_summary d req path p s x)
  append_summary-Unchanged req path p (inl err) = refl
  append_summary-Unchanged req path p (inr summary) =
      stored-Unchanged (entry_of req path p summary) (append d (entry_of req path p summary) s)
        (append_error d (entry_of req path p summary) s)

  carry_out-Unchanged :
      (c : Compactor) (req : Request) (path : List Entry) (x : PlanError ⊎ CutPlan)
      → Unchanged s (carry_out c d req path s x)
  carry_out-Unchanged c req path (inl err) = refl
  carry_out-Unchanged c req path (inr p) =
      append_summary-Unchanged req path p (summary_of c req path p)

  stored-Took :
      (req : Request) (path : List Entry) (p : CutPlan) (summary : Bytes)
      (r : Option StoreError × MemStore)
      → append d (entry_of req path p summary) s ≡ r
      → Took d req path s (stored d (entry_of req path p summary) s r)
  stored-Took req path p summary (none, s') h =
      (p, summary, ap (λ r. r.0) h, refl, sym (ap (λ r. r.1) h))
  stored-Took req path p summary (some err, s') h = tt

  append_summary-Took :
      (req : Request) (path : List Entry) (p : CutPlan) (x : CompactError ⊎ Bytes)
      → Took d req path s (append_summary d req path p s x)
  append_summary-Took req path p (inl err) = tt
  append_summary-Took req path p (inr summary) =
      stored-Took req path p summary (append d (entry_of req path p summary) s) refl

  carry_out-Took :
      (c : Compactor) (req : Request) (path : List Entry) (x : PlanError ⊎ CutPlan)
      → Took d req path s (carry_out c d req path s x)
  carry_out-Took c req path (inl err) = tt
  carry_out-Took c req path (inr p) = append_summary-Took req path p (summary_of c req path p)

  module _ (c : Compactor) (req : Request) where
    on_path_eq :
        (path : List Entry) (out : (CompactError ⊎ Entry) × MemStore)
        → path_to_root s.index s.index.leaf_id ≡ some path
        → compact c d req s ≡ some out
        → on_path c d req s path ≡ out
    unfolding compact
    on_path_eq path out q h =
        (let k : some (on_path c d req s path) ≡ some out = rw (compact, q) at h in cc k)

    -- Where the walk from the leaf to the root ends, a compaction that fails, whether for want of a
    -- window, in a call of the summarizer or in the append, leaves the session as it was.
    pub compact_failure :
        (path : List Entry) (err : CompactError) (s' : MemStore)
        → path_to_root s.index s.index.leaf_id ≡ some path
        → compact c d req s ≡ some (inl err, s')
        → s' ≡ s
    compact_failure path err s' q h =
        subst (Unchanged s) (on_path_eq path (inl err, s') q h)
          (carry_out-Unchanged c req path (plan_for c path))

    -- In a session that is a tree, and with an id that is new, a compaction that succeeds appends one
    -- entry: the path to the new leaf is the old path, with all it had, and the entry after it.
    pub compact_success :
        (path : List Entry) (e : Entry) (s' : MemStore)
        → IsTree s.index
        → ((x : Entry) → IsFresh d x s)
        → path_to_root s.index s.index.leaf_id ≡ some path
        → compact c d req s ≡ some (inr e, s')
        → path_to_root s'.index s'.index.leaf_id ≡ some (path ++ e ∷ [])
    unfolding is_position
    compact_success path e s' t f q h =
        let (p, summary, done, same, after) =
          subst (Took d req path s) (on_path_eq path (inr e, s') q h)
            (carry_out-Took c req path (plan_for c path)) in
        subst (λ x. path_to_root x.index x.index.leaf_id ≡ some (path ++ e ∷ [])) (sym after)
          (subst
            (λ y.
              path_to_root (append d (entry_of req path p summary) s).1.index
                (append d (entry_of req path p summary) s).1.index.leaf_id
              ≡ some (path ++ y ∷ []))
            (sym same)
            (append_extends_path d (entry_of req path p summary) s t
              (f (entry_of req path p summary)) path done (moves p summary) q))
      where
        moves :
            (p : CutPlan) (summary : Bytes) → is_position (entry_of req path p summary).body ≡ true
        moves p summary = refl
