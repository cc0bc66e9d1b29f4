-- ===== src/Session/MemStore.antt =====
-- internal/session/memstore.go: the session store that keeps everything in memory.
pub mod History
use mixi.Base.{Bool, true, Option, none, some, List, [], if◌then◌else◌}
use mixi.Base.Bytes.{Bytes, index}
use mixi.Session.Entry.{Header, Entry, leaf}
use mixi.Session.Tree.{
  Index, add, get, ordered, path_to_root, fill_base, validate_leaf_target, TargetError,
}

-- A clock reading, the answers of the uuid source, and whether MarshalEntry succeeds.
pub record Draw : Type 0 where
  pub now : Bytes
  pub v4 : Bytes
  pub uuids : List (Option Bytes)
  pub marshals : Entry → Bool

pub data StoreError : Type 0 where
  store_closed : StoreError
  unserializable : StoreError
  bad_target : TargetError → StoreError

pub record MemStore : Type 0 where
  pub header : Header
  pub index : Index
  pub closed : Bool

abbrev pub filled : Draw → Entry → MemStore → Entry
filled d e s = fill_base d.v4 d.uuids d.now s.index e

-- Append; the mutex makes it one step
unfoldable pub append : Draw → Entry → MemStore → Option StoreError × MemStore
append d e s =
    if s.closed
    then (some store_closed, s)
    else if d.marshals (filled d e s)
    then (none, record s { index = add (filled d e s) s.index })
    else (some unserializable, s)

abbrev pub leaf_entry : Bytes → Entry
leaf_entry target = record { id = []; parent = []; timestamp = []; body = leaf target }

on_valid :
    Option TargetError → Option StoreError × MemStore → MemStore → Option StoreError × MemStore
on_valid (some err) appended s = (some (bad_target err), s)
on_valid none appended s = appended

-- SetLeaf; the lock is released between the check and the append, and entries are never removed
unfoldable pub set_leaf : Draw → Bytes → MemStore → Option StoreError × MemStore
unfolding on_valid
set_leaf d target s =
    on_valid (validate_leaf_target target s.index) (append d (leaf_entry target) s) s

pub get_entry : Bytes → MemStore → Option Entry
get_entry id s = get id s.index

pub leaf_id : MemStore → Bytes
leaf_id s = s.index.leaf_id

pub entries : MemStore → List Entry
entries s = ordered s.index

pub close : MemStore → MemStore
close s = record s { closed = true }
