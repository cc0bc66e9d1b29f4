-- ===== src/Session/Tree/Paths.antt =====
-- internal/session/tree.go: the walk to the root ends, follows the parent links, and outlives
-- whatever is appended later.
use mathlib.Core.List.{reverse-cons}
use mixi.Base.{
  ℕ, zero, suc, ◌+◌, ◌<◌, ◌≡◌, refl, sym, ap, ◌∙◌, subst, ◌≢◌, ◌⊎◌, inl, inr, false, false≢true,
  Option, none, some, List, [], ◌∷◌, ◌++◌, reverse, arith, if◌then◌else◌, Bool-cases, Option-cases,
  length,
}
use mixi.Base.Bytes.{Bytes, bytes_eq, bytes_eq_refl, eq_of_bytes_eq, bytes_eq_iff}
use mixi.Session.Entry.{Entry}
use mixi.Session.Tree.{Index, find, walk, path_to_root, add, go_on, cons_rev}

-- An entry of that id is there.
abbrev pub IsKnown : List Entry → Bytes → Type 0
IsKnown es id = (d : Entry) × (find id es ≡ some d)

-- Newest first, each entry has an id of its own and follows its parent, if it has one.
abbrev pub Rooted : List Entry → Type 0
Rooted [] = Unit
Rooted (e ∷ es) =
    (e.id ≢ []) × (find e.id es ≡ none) × ((e.parent ≡ []) ⊎ IsKnown es e.parent) × Rooted es

-- Nearest first, the entries lead from `id` along their parent links to the root.
abbrev pub Ascends : Bytes → List Entry → Type 0
Ascends id [] = id ≡ []
Ascends id (e ∷ rev) = (e.id ≡ id) × Ascends e.parent rev

bytes_eq_ne : (s t : Bytes) → s ≢ t → bytes_eq s t ≡ false
bytes_eq_ne s t n = elim (Bool-cases (bytes_eq s t)) [
  | inl e ↦ absurd (n (eq_of_bytes_eq s t e))
  | inr e ↦ e
]

find_self : (e : Entry) (es : List Entry) → find e.id (e ∷ es) ≡ some e
unfolding find
find_self e es = rw (bytes_eq_refl e.id)

pub find_skip :
    (id : Bytes) (e : Entry) (es : List Entry) → id ≢ e.id → find id (e ∷ es) ≡ find id es
unfolding find
find_skip id e es n = rw (bytes_eq_ne e.id id (λ q. n (sym q)))

find-id : (id : Bytes) (es : List Entry) (d : Entry) → find id es ≡ some d → d.id ≡ id
unfolding find
find-id id [] d h = cc
find-id id (e ∷ es) d h = elim (Bool-cases (bytes_eq e.id id)) [
  | inl q ↦ let k : some e ≡ some d = rw q at h in cc (k, eq_of_bytes_eq e.id id q)
  | inr q ↦ find-id id es d (rw q at h)
]

pub known_ne :
    (id : Bytes) (e : Entry) (es : List Entry) → find e.id es ≡ none → IsKnown es id → id ≢ e.id
known_ne id e es fresh (d, h) q = none_ne (sym fresh ∙ (ap (λ i. find i es) (sym q) ∙ h))
  where
    none_ne : {d : Entry} → none ≡ some d → ⊥
    none_ne k = cc

pub IsKnown-cons :
    (id : Bytes) (e : Entry) (es : List Entry)
    → find e.id es ≡ none
    → IsKnown es id
    → IsKnown (e ∷ es) id
IsKnown-cons id e es fresh (d, h) = (d, find_skip id e es (known_ne id e es fresh (d, h)) ∙ h)

-- the parent of an entry that is there
IsKnown-parent :
    (es : List Entry) (id : Bytes) (d : Entry)
    → Rooted es
    → find id es ≡ some d
    → (d.parent ≡ []) ⊎ IsKnown es d.parent
unfolding find
IsKnown-parent [] id d r h = cc
IsKnown-parent (e ∷ es) id d (n, fresh, p, r) h = elim (Bool-cases (bytes_eq e.id id)) [
  | inl q ↦
      let k : some e ≡ some d = rw q at h in
      let k' : e ≡ d = cc k in
      widen e (subst (λ (x : Entry). (x.parent ≡ []) ⊎ IsKnown es x.parent) k' p) fresh
  | inr q ↦ widen e (IsKnown-parent es id d r (rw q at h)) fresh
]
  where
    widen :
        (e : Entry)
        → (d.parent ≡ []) ⊎ IsKnown es d.parent
        → find e.id es ≡ none
        → (d.parent ≡ []) ⊎ IsKnown (e ∷ es) d.parent
    widen e (inl z) f = inl z
    widen e (inr k) f = inr (IsKnown-cons d.parent e es f k)

walk_nil : (f : ℕ) (es : List Entry) → walk (suc f) es [] ≡ some []
unfolding walk bytes_eq
walk_nil f es = refl

parent_ne :
    (e d : Entry) (es : List Entry) (id : Bytes)
    → Rooted (e ∷ es)
    → find id es ≡ some d
    → d.parent ≢ e.id
parent_ne e d es id (m, fresh, p, r) h = elim (IsKnown-parent es id d r h) [
  | inl z ↦ λ k. m (sym k ∙ z)
  | inr k ↦ known_ne d.parent e es fresh k
]

go_on_congr :
    (o : Option Entry) (f g : Bytes → Option (List Entry))
    → ((d : Entry) → o ≡ some d → f d.parent ≡ g d.parent)
    → go_on o f ≡ go_on o g
go_on_congr none f g h = refl
go_on_congr (some d) f g h = ap (cons_rev d) (h d refl)

-- A walk that does not begin at the newest entry never meets it.
walk_skip :
    (f : ℕ) (e : Entry) (es : List Entry) (id : Bytes)
    → Rooted (e ∷ es)
    → id ≢ e.id
    → walk f (e ∷ es) id ≡ walk f es id
unfolding walk
walk_skip zero e es id r n = refl
walk_skip (suc f) e es id r n = rw (find_skip id e es n) (
    ap (λ o. if bytes_eq id [] then some [] else o)
      (go_on_congr (find id es) (walk f (e ∷ es)) (walk f es)
        λ d h. walk_skip f e es d.parent r (parent_ne e d es id r h)))

-- A longer walk that has ended changes nothing.
walk-suc :
    (f : ℕ) (es : List Entry) (id : Bytes) (rev : List Entry)
    → walk f es id ≡ some rev
    → walk (suc f) es id ≡ some rev
unfolding walk
walk-suc zero es id rev h = cc
walk-suc (suc f) es id rev h = elim (Bool-cases (bytes_eq id [])) [
  | inl z ↦ rw z (rw z at h)
  | inr z ↦ rw z (longer (find id es) (walk-suc f es) (rw z at h))
]
  where
    longer :
        (o : Option Entry)
        → ((i : Bytes) (v : List Entry) → walk f es i ≡ some v → walk (suc f) es i ≡ some v)
        → go_on o (walk f es) ≡ some rev
        → go_on o (walk (suc f) es) ≡ some rev
    longer none ih k = k
    longer (some d) ih k = elim (Option-cases (walk f es d.parent)) [
      | inl q ↦ cc (rw q at k)
      | inr (v, q) ↦ ap (cons_rev d) (ih d.parent v q) ∙ (rw q at k)
    ]

-- The walk from the newest entry is that entry and the walk of its parent.
walk_newest :
    (f : ℕ) (e : Entry) (es : List Entry) (rev : List Entry)
    → Rooted (e ∷ es)
    → walk f es e.parent ≡ some rev
    → walk (suc f) (e ∷ es) e.id ≡ some (e ∷ rev)
unfolding walk
walk_newest f e es rev (m, fresh, p, r) w =
    rw (bytes_eq_ne e.id [] m, find_self e es)
      (ap (cons_rev e) (walk_skip f e es e.parent (m, fresh, p, r) parent_older ∙ w))
  where
    parent_older : e.parent ≢ e.id
    parent_older = elim p [ inl z ↦ λ k. m (sym k ∙ z) | inr k ↦ known_ne e.parent e es fresh k ]

-- From any id that is there, the walk ends within as many rounds as there are entries, and climbs.
walk_total :
    (es : List Entry) (f : ℕ) (id : Bytes)
    → Rooted es
    → length es < f
    → (id ≡ []) ⊎ IsKnown es id
    → (rev : List Entry) × (walk f es id ≡ some rev) × Ascends id rev
unfolding find
walk_total es zero id r l k = absurd (omega arith)
walk_total es (suc f) id r l (inl z) = ([], rw z (walk_nil f es), z)
walk_total [] (suc f) id r l (inr (d, h)) = cc
walk_total (e ∷ es) (suc f) id r l (inr (d, h)) = elim (Bool-cases (bytes_eq e.id id)) [
  | inl q ↦
      let (rev, w, a) = walk_total es f e.parent r.3 (omega arith) r.2 in
      let s : e.id ≡ id = eq_of_bytes_eq e.id id q in
      (
        e ∷ rev,
        subst (λ i. walk (suc f) (e ∷ es) i ≡ some (e ∷ rev)) s (walk_newest f e es rev r w),
        (s, a),
      )
  | inr q ↦
      let n : id ≢ e.id = (λ k. false≢true (sym q ∙ (bytes_eq_iff e.id id).1 (sym k))) in
      let (rev, w, a) = walk_total es (suc f) id r.3 (omega arith) (inr (d, rw q at h)) in
      (rev, walk_skip (suc f) e es id r n ∙ w, a)
]

-- From any entry of a rooted index, pathToRoot ends, and read backwards its path begins with that
-- entry and goes on along the parent links to an entry with no parent.
pub path_to_root_total :
    (x : Index) (id : Bytes)
    → Rooted x.entries
    → (id ≡ []) ⊎ IsKnown x.entries id
    → (rev : List Entry) × (path_to_root x id ≡ some (reverse rev)) × Ascends id rev
unfolding path_to_root
path_to_root_total x id r k =
    let (rev, w, a) = walk_total x.entries (length x.entries + 1) id r (omega arith) k in
    (rev, rw (w, path_to_root), a)

path-walk :
    (x : Index) (id : Bytes) (p : List Entry)
    → path_to_root x id ≡ some p
    → (rev : List Entry) × (walk (length x.entries + 1) x.entries id ≡ some rev) × (p ≡ reverse rev)
unfolding path_to_root
path-walk x id p h = elim (Option-cases (walk (length x.entries + 1) x.entries id)) [
  | inl q ↦ cc (rw (q, path_to_root) at h)
  | inr (rev, q) ↦ (rev, q, cc (rw (q, path_to_root) at h))
]

-- The path to any entry but the newest is the same before and after that entry was added: branching
-- and later appends never change history.
pub path_to_root-add_ne :
    (e : Entry) (x : Index) (id : Bytes) (p : List Entry)
    → Rooted (add e x).entries
    → id ≢ e.id
    → path_to_root x id ≡ some p
    → path_to_root (add e x) id ≡ some p
unfolding path_to_root add
path_to_root-add_ne e x id p r n h =
    let (rev, w, q) = path-walk x id p h in
    let l : suc (length x.entries) + 1 ≡ suc (length x.entries + 1) = omega arith in
    rw
      (
        ap (λ f. walk f (e ∷ x.entries) id) l
            ∙ (walk_skip _ e x.entries id r n ∙ walk-suc _ x.entries id rev w),
        path_to_root,
      )
      (ap some (sym q))

-- The path to the entry just added is the path to its parent and the entry.
pub path_to_root-add_self :
    (e : Entry) (x : Index) (p : List Entry)
    → Rooted (add e x).entries
    → path_to_root x e.parent ≡ some p
    → path_to_root (add e x) e.id ≡ some (p ++ e ∷ [])
unfolding path_to_root add
path_to_root-add_self e x p r h =
    let (rev, w, q) = path-walk x e.parent p h in
    let l : suc (length x.entries) + 1 ≡ suc (length x.entries + 1) = omega arith in
    rw (ap (λ f. walk f (e ∷ x.entries) e.id) l ∙ walk_newest _ e x.entries rev r w, path_to_root)
      (ap some (reverse-cons e rev ∙ ap (λ v. v ++ e ∷ []) (sym q)))

-- A set of ids that the parent links never leave.
pub record IsCycle (es : List Entry) (P : Bytes → Type 0) : Type 0 where
  pub not_root : (i : Bytes) → P i → i ≢ []
  pub closed : (i : Bytes) → P i → (d : Entry) × (find i es ≡ some d) × P d.parent

-- From an id on a circle of parent links the walk of pathToRoot does not end, however long it goes
-- on.
pub walk_cycle :
    (f : ℕ) (es : List Entry) (P : Bytes → Type 0) (id : Bytes)
    → IsCycle es P
    → P id
    → walk f es id ≡ none
unfolding walk
walk_cycle zero es P id c p = refl
walk_cycle (suc f) es P id c p =
    let (d, h, q) = c.closed id p in
    rw (bytes_eq_ne id [] (c.not_root id p), h) (ap (cons_rev d) (walk_cycle f es P d.parent c q))
