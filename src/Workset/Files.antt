-- ===== src/Workset/Files.antt =====
-- internal/workset/workset.go: the files that the agent has seen. A map is an association list in
-- the order of its paths; times and hashes are what the system and SHA-256 give.
use mixi.Base.{
  ℕ, Bool, true, false, ◌&&◌, Option, none, some, List, [], ◌∷◌, ◌++◌, ltb, ◌==◌, if◌then◌else◌,
}
use mixi.Base.Bytes.{Bytes, bytes_eq}
use mixi.Compact.FileLists.{bytes_lt}

pub record FileStamp : Type 0 where
  pub last_read_turn : ℕ
  pub last_write_turn : ℕ
  pub mod_time : Bytes
  pub size : ℕ
  pub hash : Bytes

pub data Reason : Type 0 where
  modified deleted : Reason

pub record StaleFile : Type 0 where
  pub path : Bytes
  pub read_turn : ℕ
  pub reason : Reason

pub record WorkingSet : Type 0 where
  pub turn : ℕ
  pub files : List (Bytes × FileStamp)
  pub dirty : Bool

abbrev pub new_set : WorkingSet
new_set = record { turn = 0; files = []; dirty = false }

pub set_turn : ℕ → WorkingSet → WorkingSet
set_turn n w = record w { turn = n }

-- what os.Stat and os.ReadFile answer for a path
pub record Stat : Type 0 where
  pub mod_time : Bytes
  pub size : ℕ

pub record FileSystem : Type 0 where
  pub stat : Bytes → Option Stat
  pub read : Bytes → Option Bytes
  pub hash : Bytes → Bytes

abbrev zero_stamp : FileStamp
zero_stamp = record { last_read_turn = 0; last_write_turn = 0; mod_time = []; size = 0; hash = [] }

unfoldable pub stamp_of : Bytes → List (Bytes × FileStamp) → Option FileStamp
stamp_of p [] = none
stamp_of p ((q, s) ∷ fs) = let rest = stamp_of p fs in if bytes_eq q p then some s else rest

unfoldable pub put : Bytes → FileStamp → List (Bytes × FileStamp) → List (Bytes × FileStamp)
put p s [] = (p, s) ∷ []
put p s ((q, t) ∷ fs) =
    let rest = put p s fs in
    if bytes_eq q p
    then (p, s) ∷ fs
    else if bytes_lt p q
    then (p, s) ∷ (q, t) ∷ fs
    else (q, t) ∷ rest

abbrev or_zero : Option FileStamp → FileStamp
or_zero none = zero_stamp
or_zero (some s) = s

abbrev seen_at : Bool → ℕ → FileStamp → FileStamp
seen_at true turn s = record s { last_write_turn = turn }
seen_at false turn s = record s { last_read_turn = turn }

abbrev pub observed : FileSystem → Option Stat → Bytes → Bytes → Bool → WorkingSet → WorkingSet
observed fs none path bytes write w = w
observed fs (some st) path bytes write w = record w {
  files =
      put path
        (record (seen_at write w.turn (or_zero (stamp_of path w.files))) {
          mod_time = st.mod_time;
          size = st.size;
          hash = fs.hash bytes;
        })
        w.files;
  dirty = true;
}

-- ObserveRead, and ObserveWrite where `write` is set
unfoldable pub observe : FileSystem → Bytes → Bytes → (write : Bool) → WorkingSet → WorkingSet
observe fs path bytes write w = observed fs (fs.stat path) path bytes write w

-- What Stale finds of one file: nothing, a report, or a stamp to refresh.
pub data Finding : Type 0 where
  unchanged : Finding
  stale : Reason → Finding
  touched : Stat → Finding

abbrev same_stat : Stat → FileStamp → Bool
same_stat st s = bytes_eq st.mod_time s.mod_time && (st.size == s.size)

abbrev by_content : FileSystem → Stat → FileStamp → Option Bytes → Finding
by_content fs st s none = stale deleted
by_content fs st s (some bytes) =
    if bytes_eq (fs.hash bytes) s.hash then touched st else stale modified

abbrev by_stat : FileSystem → Bytes → FileStamp → Option Stat → Finding
by_stat fs p s none = stale deleted
by_stat fs p s (some st) = if same_stat st s then unchanged else by_content fs st s (fs.read p)

unfoldable pub check_file : FileSystem → Bytes → FileStamp → Finding
check_file fs p s = by_stat fs p s (fs.stat p)

abbrev refreshed : Bytes → FileStamp → Stat → Option FileStamp → WorkingSet → WorkingSet
refreshed p s st none w = w
refreshed p s st (some cur) w =
    if bytes_eq cur.hash s.hash
    then record w { files = put p (record cur { mod_time = st.mod_time; size = st.size }) w.files }
    else w

abbrev pub reported : Bytes → FileStamp → Finding → List StaleFile
reported p s (stale why) = record { path = p; read_turn = s.last_read_turn; reason = why } ∷ []
reported p s _ = []

abbrev pub refresh : Bytes → FileStamp → Finding → WorkingSet → WorkingSet
refresh p s (touched st) w = refreshed p s st (stamp_of p w.files) w
refresh p s _ w = w

-- the loop over the paths, which are in order
unfoldable pub stale_files :
    FileSystem → List (Bytes × FileStamp) → WorkingSet → List StaleFile × WorkingSet
stale_files fs [] w = ([], w)
stale_files fs ((p, s) ∷ rest) w =
    let found = check_file fs p s in
    let (out, w') = stale_files fs rest (refresh p s found w) in (reported p s found ++ out, w')

-- Stale
unfoldable pub stale_list : FileSystem → WorkingSet → List StaleFile × WorkingSet
stale_list fs w = stale_files fs w.files w

unfoldable pub paths_where : (FileStamp → Bool) → List (Bytes × FileStamp) → List Bytes
paths_where test [] = []
paths_where test ((p, s) ∷ fs) = let rest = paths_where test fs in if test s then p ∷ rest else rest

-- Lists: the paths read and the paths written
unfoldable pub lists : WorkingSet → List Bytes × List Bytes
lists w = (
  paths_where (λ s. ltb 0 s.last_read_turn) w.files,
  paths_where (λ s. ltb 0 s.last_write_turn) w.files,
)

-- Snapshot, with the JSON text of a turn and its files; `none` when nothing changed or it fails
abbrev pub snapshot_as : Option Bytes → WorkingSet → Option Bytes × WorkingSet
snapshot_as none w = (none, w)
snapshot_as (some raw) w = (some raw, record w { dirty = false })

unfoldable pub snapshot :
    (ℕ → List (Bytes × FileStamp) → Option Bytes) → WorkingSet → Option Bytes × WorkingSet
snapshot print w = if w.dirty then snapshot_as (print w.turn w.files) w else (none, w)

-- Restore, of what the JSON text says; `none` for its errors
abbrev pub restored : Option (ℕ × List (Bytes × FileStamp)) → WorkingSet → Option WorkingSet
restored none w = none
restored (some (turn, files)) w = some (record { turn = turn; files = files; dirty = false })

unfoldable pub restore :
    (Bytes → Option (ℕ × List (Bytes × FileStamp))) → Bytes → WorkingSet → Option WorkingSet
restore parse raw w = restored (parse raw) w
