-- ===== src/Compact/Controller/Triggers.antt =====
-- internal/compact/controller.go: when a compaction runs, and what it leaves.
use mixi.Base.{◌≡◌, ap, ◌∙◌, ◌⊎◌, inl, inr, true, false, Option, none, some, List}
use mixi.Base.Bytes.{Bytes}
use mixi.Session.Entry as Session
use mixi.Session.Tree.{path_to_root}
use mixi.Session.MemStore.{Draw, MemStore}
use mixi.Compact.Compactor.{CompactError}
use mixi.Compact.Compactor.Appended.{compact_failure}
use mixi.Compact.Controller.{Config, Controller, compact, after_compact, mark_compacted}

-- what a success leaves: the marks set, and the projection taken from the entry
abbrev pub Marked : Controller → Type 0
Marked c = (c.compacted_this_turn ≡ true) × (c.anchor_fresh ≡ false)

abbrev MarkedIf : Option (Option CompactError × Controller) → Type 0
MarkedIf (some (none, c)) = Marked c
MarkedIf _ = Unit

-- a failed compaction has only the failed store
after_failed :
    (c c' : Controller) (err : CompactError)
    (o : Option ((CompactError ⊎ Session.Entry) × MemStore))
    → after_compact c o ≡ some (some err, c')
    → (s : MemStore) × (o ≡ some (inl err, s)) × (c' ≡ record c { store = s })
after_failed c c' err none h = absurd (cc h)
after_failed c c' err (some (inl e, s)) h = (s, ap (λ x. some (inl x, s)) (cc h), cc h)
after_failed c c' err (some (inr e, s)) h = absurd (never _ h)
  where
    never : (o : Option Controller) → mark_compacted o ≡ some (some err, c') → ⊥
    never none q = cc q
    never (some x) q = cc q

-- Where the walk from the leaf to the root ends, a compaction that fails leaves everything as it
-- was: the session, the mirror and the projection.
pub compact-unchanged :
    (g : Config) (d : Draw) (focus : Bytes) (c c' : Controller) (path : List Session.Entry)
    (err : CompactError)
    → path_to_root c.store.index c.store.index.leaf_id ≡ some path
    → compact g d focus c ≡ some (some err, c')
    → c' ≡ c
unfolding compact
compact-unchanged g d focus c c' path err p h =
    let (s, o, e) = after_failed c c' err _ h in
    e ∙ ap (λ s. record c { store = s }) (compact_failure d c.store g.compactor _ path err s p o)
