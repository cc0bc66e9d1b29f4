-- ===== src/Session/FileStore/Persisted.antt =====
-- internal/session/store.go: what the file holds.
use mixi.Base.Lines.{newline}
use mixi.Base.{◌≡◌, ◌⊎◌, Bool, true, false, not, ◌||◌, Option, none, some, List, [], ◌∷◌, ◌++◌}
use mixi.Base.Bytes.{Bytes}
use mixi.Session.Entry.{Entry}
use mixi.Session.Tree.{Index, add, new_index}
use mixi.Session.FileStore.{Format, Answers, Outcome, FileStore, joined}

-- the index that the entries give when they are added in turn
abbrev pub replay : List Entry → Index → Index
replay [] x = x
replay (e ∷ es) x = replay es (add e x)

-- a line for each entry
abbrev pub Lines : Format → List Entry → List Bytes → Type 0
Lines f [] [] = Unit
Lines f (e ∷ es) (l ∷ ls) = (f.marshal e ≡ some l) × Lines f es ls
Lines f es ls = ⊥

-- what the file is, and what is still to be written
abbrev pub FileHolds : Bytes → List Bytes → Bool → Option Bytes → List Bytes → Type 0
FileHolds head ls true disk pending = disk ≡ some ((head ++ newline ∷ []) ++ joined ls)
FileHolds head ls false disk pending = (disk ≡ none) × (pending ≡ ls)

-- The index is made of entries whose lines are in the file, or wait for the first message.
pub record IsPersisted (f : Format) (es : List Entry) (ls : List Bytes) (s : FileStore)
    : Type 0 where
  pub head : Bytes
  pub header_line : f.marshal_header s.header ≡ some head
  pub replays : s.index ≡ replay es new_index
  pub lines : Lines f es ls
  pub holds : FileHolds head ls s.opened s.disk s.pending

-- A write that fails has written nothing, a failed first write is removed, and the lock and the
-- first sync do not fail.
pub record IsClean (d : Answers) (s : FileStore) : Type 0 where
  pub nothing_written : (d.fails_after ≡ none) ⊎ (d.fails_after ≡ some 0)
  pub locks : d.lock_ok ≡ true
  pub removes : d.remove_ok ≡ true
  pub first_sync : s.opened || not s.options.fsync || d.sync_ok ≡ true

-- after a call: the entry is there, or nothing has changed
abbrev pub StillPersisted :
    Format → List Entry → List Bytes → Entry → Bytes → Outcome × FileStore → Type 0
StillPersisted f es ls e l r =
    IsPersisted f es ls r.1 ⊎ IsPersisted f (es ++ e ∷ []) (ls ++ l ∷ []) r.1

-- How the first write ends when nothing is half done.
module _ (f : Format) (d : Answers) (s : FileStore) (head : Bytes) where
  abbrev flushed_file : FileStore
  flushed_file = record s {
    disk = some ((head ++ newline ∷ []) ++ joined s.pending);
    opened = true;
    pending = [];
  }
