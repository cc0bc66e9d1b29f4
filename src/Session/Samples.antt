-- ===== src/Session/Samples.antt =====
-- internal/session: a small session, branched once.
use mixi.Base.{◌≡◌, refl, inl, inr, true, false, Option, none, some, List, [], ◌∷◌, reverse}
use mixi.Base.Bytes.{Bytes, codes, bytes_eq}
use mixi.Ai.{user_message}
use mixi.Session.Entry.{Entry, Body, message}
use mixi.Session.Ids.{new_entry_id}
use mixi.Session.Tree.{
  new_index, find, walk, path_to_root, add, has, fill_base, next_leaf, is_position,
  validate_leaf_target,
}
use mixi.Session.Tree.Paths.{IsKnown, Ascends, path_to_root_total}
use mixi.Session.MemStore.{Draw, StoreError, MemStore, append, set_leaf, filled, leaf_entry}
use mixi.Session.MemStore.History.{
  IsTree, IsFresh, append-IsTree, append_extends_path, append_keeps_history,
}

abbrev note : Body
note = message (user_message (record { content = []; timestamp = 0 })) false

abbrev draft : Entry
draft = record { id = []; parent = []; timestamp = []; body = note }

abbrev draw : Bytes → Draw
draw uuid = record {
  now = codes "noon";
  v4 = codes "v4";
  uuids = some uuid ∷ [];
  marshals = λ e. true;
}

abbrev empty_store : MemStore
empty_store = record {
  header = record { version = 1; id = []; timestamp = []; cwd = []; parent_session = [] };
  index = new_index;
  closed = false;
}

abbrev one_store : MemStore
one_store = (append (draw (codes "00000001")) draft empty_store).1

abbrev two_store : MemStore
two_store = (append (draw (codes "00000002")) draft one_store).1

runs : two_store.index.leaf_id ≡ codes "00000002"
unfolding append add next_leaf fill_base new_entry_id has find bytes_eq
runs = refl

empty-IsTree : IsTree empty_store.index
empty-IsTree = record { rooted = tt; leaf_known = inl refl }

first-IsFresh : IsFresh (draw (codes "00000001")) draft empty_store
unfolding fill_base new_entry_id has find
first-IsFresh = record { not_taken = refl; not_empty = λ q. cc q }

append-IsTree_example : IsTree one_store.index
append-IsTree_example =
    append-IsTree (draw (codes "00000001")) draft empty_store empty-IsTree first-IsFresh refl

second-IsFresh : IsFresh (draw (codes "00000002")) draft one_store
unfolding append add next_leaf fill_base new_entry_id has find bytes_eq
second-IsFresh = record { not_taken = refl; not_empty = λ q. cc q }

first_entry : Entry
first_entry = filled (draw (codes "00000001")) draft empty_store

path_of_one : path_to_root one_store.index one_store.index.leaf_id ≡ some (first_entry ∷ [])
unfolding append add next_leaf fill_base new_entry_id has find walk path_to_root first_entry
    bytes_eq
path_of_one = refl

append_extends_path_example :
    path_to_root two_store.index two_store.index.leaf_id
    ≡ some (first_entry ∷ filled (draw (codes "00000002")) draft one_store ∷ [])
unfolding append is_position
append_extends_path_example =
    append_extends_path (draw (codes "00000002")) draft one_store append-IsTree_example
      second-IsFresh (first_entry ∷ []) refl refl path_of_one

IsKnown-one : IsKnown one_store.index.entries one_store.index.leaf_id
unfolding append add next_leaf fill_base new_entry_id has find first_entry bytes_eq
IsKnown-one = (first_entry, refl)

append_keeps_history_example :
    path_to_root two_store.index one_store.index.leaf_id ≡ some (first_entry ∷ [])
append_keeps_history_example =
    append_keeps_history (draw (codes "00000002")) draft one_store append-IsTree_example
      second-IsFresh one_store.index.leaf_id (first_entry ∷ []) IsKnown-one path_of_one

path_to_root_total_example :
    (rev : List Entry) × (path_to_root one_store.index one_store.index.leaf_id ≡ some (reverse rev))
    × Ascends one_store.index.leaf_id rev
path_to_root_total_example =
    path_to_root_total one_store.index one_store.index.leaf_id append-IsTree_example.rooted
      (inr IsKnown-one)

third-IsFresh : IsFresh (draw (codes "00000003")) (leaf_entry (codes "00000001")) two_store
unfolding append add next_leaf fill_base new_entry_id has find bytes_eq
third-IsFresh = record { not_taken = refl; not_empty = λ q. cc q }

two-IsTree : IsTree two_store.index
two-IsTree =
    append-IsTree (draw (codes "00000002")) draft one_store append-IsTree_example second-IsFresh
      refl

path_after_two : path_to_root two_store.index (codes "00000001") ≡ some (first_entry ∷ [])
unfolding append add next_leaf fill_base new_entry_id has find walk path_to_root first_entry
    bytes_eq
path_after_two = refl

abbrev moved : Option StoreError × MemStore
moved = set_leaf (draw (codes "00000003")) (codes "00000001") two_store

move_succeeds : moved.0 ≡ none
unfolding set_leaf append add next_leaf fill_base new_entry_id has find validate_leaf_target
    is_position bytes_eq
move_succeeds = refl
