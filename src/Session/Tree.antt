-- ===== src/Session/Tree.antt =====
-- internal/session/tree.go: the index of a session tree.
pub mod Paths
use mixi.Base.{
  ℕ, zero, suc, ◌+◌, Bool, true, false, ◌||◌, Option, none, some, List, [], ◌∷◌, reverse,
  if◌then◌else◌, length,
}
use mixi.Base.Bytes.{Bytes, bytes_eq}
use mixi.Session.Entry.{
  Entry, Body, message, model_change, thinking_level_change, active_tools_change, compaction,
  branch_summary, custom, custom_message, label, session_info, leaf,
}
use mixi.Session.Ids.{new_entry_id}

-- The map `byID` holds each entry under its own id, so it is the list of entries, newest first, in
-- which a lookup finds the newest; read backwards, the list is `ordered`.
pub record Index : Type 0 where
  pub entries : List Entry
  pub leaf_id : Bytes

abbrev pub new_index : Index
new_index = record { entries = []; leaf_id = [] }

-- the `switch` of `add`
unfoldable pub next_leaf : Entry → Bytes → Bytes
next_leaf e old = elim e.body [
  | leaf target ↦ target
  | label target name ↦ old
  | session_info name ↦ old
  | _ ↦ e.id
]

unfoldable pub add : Entry → Index → Index
add e x = record { entries = e ∷ x.entries; leaf_id = next_leaf e x.leaf_id }

unfoldable pub find : Bytes → List Entry → Option Entry
find id [] = none
find id (e ∷ es) = let rest = find id es in if bytes_eq e.id id then some e else rest

unfoldable pub get : Bytes → Index → Option Entry
get id x = find id x.entries

is_some : {A : Type 0} → Option A → Bool
is_some none = false
is_some (some a) = true

unfoldable pub has : Index → Bytes → Bool
unfolding is_some
has x id = is_some (find id x.entries)

-- ordered
pub ordered : Index → List Entry
ordered x = reverse x.entries

-- one entry more, nearest first
abbrev pub cons_rev : Entry → Option (List Entry) → Option (List Entry)
cons_rev e none = none
cons_rev e (some rev) = some (e ∷ rev)

-- the loop goes on from the parent of an entry that is there
abbrev pub go_on : Option Entry → (Bytes → Option (List Entry)) → Option (List Entry)
go_on none next = some []
go_on (some e) next = cons_rev e (next e.parent)

-- The walk of pathToRoot, nearest entry first; `none` when the fuel runs out.
unfoldable pub walk : ℕ → List Entry → Bytes → Option (List Entry)
walk zero es id = none
walk (suc f) es id = if bytes_eq id [] then some [] else go_on (find id es) (walk f es)

-- An acyclic walk meets each entry once, so one round more than there are entries is enough.
unfoldable pub path_to_root : Index → Bytes → Option (List Entry)
path_to_root x id = elim (walk (length x.entries + 1) x.entries id) [
  | none ↦ none
  | some rev ↦ some (reverse rev)
]

-- fillBase: the id is drawn, the parent is the leaf, and a missing timestamp is the clock's
unfoldable pub fill_base : Bytes → List (Option Bytes) → Bytes → Index → Entry → Entry
fill_base v4 draws now x e = record e {
  id = new_entry_id (has x) v4 draws;
  parent = x.leaf_id;
  timestamp = if bytes_eq e.timestamp [] then now else e.timestamp;
}

pub data TargetError : Type 0 where
  no_such_target : Bytes → TargetError
  not_a_position : Bytes → TargetError

-- leaf, label and session_info entries are no positions
unfoldable pub is_position : Body → Bool
is_position (leaf target) = false
is_position (label target name) = false
is_position (session_info name) = false
is_position _ = true

unfoldable pub validate_leaf_target : Bytes → Index → Option TargetError
validate_leaf_target target x = elim (find target x.entries) [
  | none ↦ some (no_such_target target)
  | some e ↦ if is_position e.body then none else some (not_a_position target)
]

-- The deepest id of the new path that is on the old one, the new path given leaf first.
on_path : Bytes → List Entry → Bool
on_path id [] = false
on_path id (e ∷ es) = bytes_eq e.id id || on_path id es

deepest_shared : List Entry → List Entry → Bytes
unfolding on_path
deepest_shared old [] = []
deepest_shared old (e ∷ rev) =
    let rest = deepest_shared old rev in if on_path e.id old then e.id else rest

-- CommonAncestor over the two paths
unfoldable pub common_ancestor : Index → Bytes → Bytes → Option Bytes
unfolding deepest_shared
common_ancestor x old_leaf new_leaf = elim (path_to_root x old_leaf) [
  | none ↦ none
  | some old ↦ elim (path_to_root x new_leaf) [
    | none ↦ none
    | some new ↦ some (deepest_shared old (reverse new))
  ]
]
