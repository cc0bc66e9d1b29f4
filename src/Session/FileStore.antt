-- ===== src/Session/FileStore.antt =====
-- internal/session/store.go: the session store on disk, one file with a header line and a line for
-- each entry.
pub mod Refined
pub mod Persisted
use mixi.Base.{
  ℕ, Bool, true, false, not, ◌&&◌, ◌||◌, Option, none, some, List, [], ◌∷◌, ◌++◌, if◌then◌else◌,
  take,
}
use mixi.Base.Bytes.{Bytes}
use mixi.Base.Lines.{newline}
use mixi.Session.Entry.{Header, Entry, Body, message}
use mixi.Session.Tree.{Index, add, fill_base, validate_leaf_target, TargetError}
use mixi.Session.MemStore.{leaf_entry}

-- MarshalHeader, MarshalEntry, UnmarshalHeader and UnmarshalEntry; `none` is their error.
pub record Format : Type 0 where
  pub marshal_header : Header → Option Bytes
  pub marshal : Entry → Option Bytes
  pub unmarshal_header : Bytes → Option Header
  pub unmarshal : Bytes → Option Entry

pub record Options : Type 0 where
  pub read_only : Bool
  pub fsync : Bool

-- What the clock, the uuid source and the file system answer during one call. A write that fails
-- has written the first bytes, as many as `fails_after` says.
pub record Answers : Type 0 where
  pub now : Bytes
  pub v4 : Bytes
  pub uuids : List (Option Bytes)
  pub mkdir_ok : Bool
  pub create_ok : Bool
  pub lock_ok : Bool
  pub fails_after : Option ℕ
  pub remove_ok : Bool
  pub sync_ok : Bool

pub data FileError : Type 0 where
  store_closed : FileError
  store_read_only : FileError
  unserializable : FileError
  bad_target : TargetError → FileError
  mkdir_failed : FileError
  create_failed : FileError
  in_use : FileError
  bad_header : FileError
  write_failed : FileError
  sync_failed : FileError

-- How a call ends: it returns nil or an error, or it panics.
pub data Outcome : Type 0 where
  done : Outcome
  failed : FileError → Outcome
  panicked : Outcome

-- The store, with the bytes of the file at its path; `opened` when s.file is set.
pub record FileStore : Type 0 where
  pub header : Header
  pub index : Index
  pub options : Options
  pub disk : Option Bytes
  pub opened : Bool
  pub pending : List Bytes
  pub closed : Bool

-- each line with its newline
unfoldable pub joined : List Bytes → Bytes
joined [] = []
joined (l ∷ ls) = (l ++ newline ∷ []) ++ joined ls

abbrev pub exists : Option Bytes → Bool
exists none = false
exists (some b) = true

-- the header line and everything buffered, in one write; the sync of the new file
abbrev pub first_write : Option ℕ → Bytes → Answers → FileStore → Option FileError × FileStore
first_write (some n) buf d s =
    (some write_failed, record s { disk = if d.remove_ok then none else some (take n buf) })
first_write none buf d s = (
  if s.options.fsync && not d.sync_ok then some sync_failed else none,
  record s { disk = some buf; opened = true; pending = [] },
)

abbrev pub with_header : Option Bytes → Answers → FileStore → Option FileError × FileStore
with_header none d s = (some bad_header, record s { disk = some [] })
with_header (some head) d s =
    first_write d.fails_after ((head ++ newline ∷ []) ++ joined s.pending) d s

-- createAndFlush; O_EXCL refuses a file that is there
unfoldable pub create_and_flush : Format → Answers → FileStore → Option FileError × FileStore
create_and_flush f d s =
    if not d.mkdir_ok
    then (some mkdir_failed, s)
    else if exists s.disk || not d.create_ok
    then (some create_failed, s)
    else if not d.lock_ok
    then (some in_use, record s { disk = some [] })
    else with_header (f.marshal_header s.header) d s

-- s.pending[:len(s.pending)-1], which panics on an empty slice
unfoldable pub drop_last : List Bytes → Option (List Bytes)
drop_last [] = none
drop_last (l ∷ []) = some []
drop_last (l ∷ m ∷ ls) = elim (drop_last (m ∷ ls)) [ none ↦ none | some ks ↦ some (l ∷ ks) ]

-- the bytes of the file after a write of `buf` at its end
abbrev pub extended : Option ℕ → Bytes → Option Bytes → Option Bytes
extended cut buf none = none
extended none buf (some b) = some (b ++ buf)
extended (some n) buf (some b) = some (b ++ take n buf)

abbrev pub write_error : Option ℕ → Option FileError
write_error none = none
write_error (some n) = some write_failed

-- writeLine
unfoldable pub write_line : Answers → Bytes → FileStore → Option FileError × FileStore
write_line d line s = (
  write_error d.fails_after,
  record s { disk = extended d.fails_after (line ++ newline ∷ []) s.disk },
)

abbrev pub is_message : Body → Bool
is_message (message m pinned) = true
is_message _ = false

-- idx.add and the sync after a message, once the line is written
unfoldable pub indexed : Answers → Entry → FileStore → Outcome × FileStore
indexed d e s = (
  if is_message e.body && s.options.fsync && s.opened && not d.sync_ok
      then failed sync_failed
      else done,
  record s { index = add e s.index },
)

-- the append to pending is taken back
abbrev pub taken_back : FileError → Option (List Bytes) → FileStore → Outcome × FileStore
taken_back err none s = (panicked, s)
taken_back err (some ls) s = (failed err, record s { pending = ls })

abbrev pub after_flush : Answers → Entry → Option FileError × FileStore → Outcome × FileStore
after_flush d e (none, s) = indexed d e s
after_flush d e (some err, s) = taken_back err (drop_last s.pending) s

abbrev pub after_write : Answers → Entry → Option FileError × FileStore → Outcome × FileStore
after_write d e (none, s) = indexed d e s
after_write d e (some err, s) = (failed err, s)

abbrev pub buffered : Bytes → FileStore → FileStore
buffered line s = record s { pending = s.pending ++ line ∷ [] }

-- the `switch` of Append, on whether the file is open and the entry is a message
abbrev pub persist :
    (opened is_msg : Bool) → Format → Answers → Bytes → Entry → FileStore → Outcome × FileStore
persist false false f d line e s = indexed d e (buffered line s)
persist false true f d line e s = after_flush d e (create_and_flush f d (buffered line s))
persist true is_msg f d line e s = after_write d e (write_line d line s)

abbrev pub with_line : Option Bytes → Format → Answers → Entry → FileStore → Outcome × FileStore
with_line none f d e s = (failed unserializable, s)
with_line (some line) f d e s = persist s.opened (is_message e.body) f d line e s

abbrev pub filled_at : Answers → Entry → FileStore → Entry
filled_at d e s = fill_base d.v4 d.uuids d.now s.index e

-- Append; the mutex makes it one step
unfoldable pub append : Format → Answers → Entry → FileStore → Outcome × FileStore
append f d e s =
    if s.closed
    then (failed store_closed, s)
    else if s.options.read_only
    then (failed store_read_only, s)
    else with_line (f.marshal (filled_at d e s)) f d (filled_at d e s) s

abbrev pub if_target : Option TargetError → Outcome × FileStore → FileStore → Outcome × FileStore
if_target (some err) appended s = (failed (bad_target err), s)
if_target none appended s = appended

-- SetLeaf
unfoldable pub set_leaf : Format → Answers → Bytes → FileStore → Outcome × FileStore
set_leaf f d target s =
    if_target (validate_leaf_target target s.index) (append f d (leaf_entry target) s) s

-- Close; the answer of the file's own Close is left out
unfoldable pub close : FileStore → FileStore
close s = if s.closed then s else record s { closed = true; opened = false }

-- NewJSONL, for a header whose fields are set
unfoldable pub new_store : Header → Options → Option FileStore
new_store h o =
    if o.read_only
    then none
    else some (record {
      header = h;
      index = record { entries = []; leaf_id = [] };
      options = o;
      disk = none;
      opened = false;
      pending = [];
      closed = false;
    })
