-- ===== src/Session/FileSamples.antt =====
-- internal/session: a small session on disk, in a format that prints only an entry's id.
use mixi.Base.Lines.{newline}
use mixi.Base.{
  ℕ, ◌≡◌, refl, sym, ap, ◌∙◌, inl, inr, Bool, true, false, ◌&&◌, Option, none, some, List, [], ◌∷◌,
  ◌++◌, map, arith, ◌==◌, if◌then◌else◌, ==_iff, Bool-cases, and_cases, any,
}
use mixi.Base.Bytes.{Bytes, codes, bytes_eq, eq_of_bytes_eq}
use mixi.Session.Entry.{
  Header, Entry, Body, session_info, message, model_change, thinking_level_change,
  active_tools_change, compaction, branch_summary, custom, custom_message, label, leaf,
}
use mixi.Ai.{user_message}
use mixi.Session.Tree.{add, new_index, fill_base, has, find}
use mixi.Session.Ids.{new_entry_id}
use mixi.Session.FileStore.{
  Format, Answers, Outcome, FileStore, append, joined, create_and_flush, drop_last,
}
use mixi.Session.FileStore.Refined.{
  Works, IsReady, Call, append_call, set_leaf_call, file_run, memory_run, file_run_refines, view,
  shown,
}
use mixi.Session.FileStore.Persisted.{IsPersisted}
use mixi.Session.Loader.{LoadAnswers, load, load_line, trim_left, trim_right}
use mixi.Session.Loader.Lines.{IsObject}
use mixi.Session.Loader.Recovered.{IsJson, load_persisted, load_torn}

abbrev braced : Bytes → Option Bytes
braced m = if any (λ c. c == newline) m then none else some (123 ∷ m ++ 125 ∷ [])

abbrev push_byte : ℕ → Option Bytes → Option Bytes
push_byte c none = none
push_byte c (some m) = some (c ∷ m)

-- what stands before the closing brace
unfoldable before_brace : Bytes → Option Bytes
before_brace [] = none
before_brace (c ∷ []) = if c == 125 then some [] else none
before_brace (c ∷ d ∷ s) = push_byte c (before_brace (d ∷ s))

abbrev is_blank : Body → Bool
is_blank (session_info n) = bytes_eq n []
is_blank _ = false

abbrev is_plain : Entry → Bool
is_plain e = bytes_eq e.parent [] && (bytes_eq e.timestamp [] && is_blank e.body)

abbrev print_id : Entry → Option Bytes
print_id e = if is_plain e then braced e.id else none

abbrev entry_of : Option Bytes → Option Entry
entry_of none = none
entry_of (some i) = some (record { id = i; parent = []; timestamp = []; body = session_info [] })

abbrev inside : Bytes → Option Bytes
inside [] = none
inside (c ∷ s) = before_brace s

abbrev header : Header
header = record { version = 1; id = []; timestamp = []; cwd = []; parent_session = [] }

abbrev is_first : Header → Bool
is_first h =
    h.version == 1
    && (bytes_eq h.id []
        && (bytes_eq h.timestamp [] && (bytes_eq h.cwd [] && bytes_eq h.parent_session [])))

abbrev print_header : Header → Option Bytes
print_header h = if is_first h then some (codes "{h}") else none

abbrev id_format : Format
id_format = record {
  marshal_header = print_header;
  marshal = print_id;
  unmarshal_header = λ l. if bytes_eq l (codes "{h}") then some header else none;
  unmarshal = λ l. entry_of (inside l);
}

before_brace-snoc : (m : Bytes) → before_brace (m ++ 125 ∷ []) ≡ some m
unfolding before_brace
before_brace-snoc [] = refl
before_brace-snoc (c ∷ []) = refl
before_brace-snoc (c ∷ d ∷ m) = rw (before_brace-snoc (d ∷ m)) refl

no_newline_snoc :
    (m : Bytes)
    → any (λ c. c == newline) m ≡ false
    → any (λ c. c == newline) (m ++ 125 ∷ []) ≡ false
no_newline_snoc [] h = refl
no_newline_snoc (c ∷ m) h = ground (arith, no_newline_snoc m)

braced-IsObject :
    (m l : Bytes) → braced m ≡ some l → IsObject l × (entry_of (inside l) ≡ entry_of (some m))
braced-IsObject m l h = elim (Bool-cases (any (λ c. c == newline) m)) [
  | inl q ↦ absurd (cc (rw q at h))
  | inr q ↦
      let e : 123 ∷ m ++ 125 ∷ [] ≡ l = cc (rw q at h) in
      (
        record { inner = m; braces = sym e; one_line = rw (← e) (no_newline_snoc m q) },
        rw (← e) (ap entry_of (before_brace-snoc m)),
      )
]

blank_body : (b : Body) → is_blank b ≡ true → b ≡ session_info []
blank_body (session_info n) h = ap session_info (eq_of_bytes_eq n [] h)
blank_body (message m p) h = absurd (cc h)
blank_body (model_change p m) h = absurd (cc h)
blank_body (thinking_level_change l) h = absurd (cc h)
blank_body (active_tools_change n) h = absurd (cc h)
blank_body (compaction s f t l) h = absurd (cc h)
blank_body (branch_summary f s l) h = absurd (cc h)
blank_body (custom t c) h = absurd (cc h)
blank_body (custom_message t c d e p) h = absurd (cc h)
blank_body (label t n) h = absurd (cc h)
blank_body (leaf t) h = absurd (cc h)

plain_entry : (e : Entry) → is_plain e ≡ true → entry_of (some e.id) ≡ some e
plain_entry e h =
    let (p, r) = and_cases h in
    let (t, b) = and_cases r in
    rw (eq_of_bytes_eq e.parent [] p, eq_of_bytes_eq e.timestamp [] t, blank_body e.body b) refl

printed :
    (e : Entry) (l : Bytes) → print_id e ≡ some l → IsObject l × (entry_of (inside l) ≡ some e)
printed e l h = elim (Bool-cases (is_plain e)) [
  | inr q ↦ absurd (cc (rw q at h))
  | inl q ↦ let (o, back) = braced-IsObject e.id l (rw q at h) in (o, back ∙ plain_entry e q)
]

first_header : (h : Header) → is_first h ≡ true → header ≡ h
first_header h q =
    let (v, r1) = and_cases q in
    let (i, r2) = and_cases r1 in
    let (t, r3) = and_cases r2 in
    let (c, p) = and_cases r3 in
    rw
      (
        (==_iff h.version 1).0 v,
        eq_of_bytes_eq h.id [] i,
        eq_of_bytes_eq h.timestamp [] t,
        eq_of_bytes_eq h.cwd [] c,
        eq_of_bytes_eq h.parent_session [] p,
      )
      refl

printed_header :
    (h : Header) (l : Bytes)
    → print_header h ≡ some l
    → IsObject l × (id_format.unmarshal_header l ≡ some h)
unfolding bytes_eq
printed_header h l k = elim (Bool-cases (is_first h)) [
  | inr q ↦ absurd (cc (rw q at k))
  | inl q ↦
      let e : codes "{h}" ≡ l = cc (rw q at k) in
      (
        record { inner = codes "h"; braces = sym e; one_line = rw (← e) refl },
        rw (← e) (ap some (first_header h q)),
      )
]

abbrev named : Bytes → Entry
named i = record { id = i; parent = []; timestamp = []; body = session_info [] }

-- a store whose file holds the header and one entry
abbrev open_store : FileStore
open_store = record {
  header = header;
  index = add (named (codes "a")) new_index;
  options = record { read_only = false; fsync = true };
  disk = some ((codes "{h}" ++ newline ∷ []) ++ joined (codes "{a}" ∷ []));
  opened = true;
  pending = [];
  closed = false;
}

open_store-IsPersisted :
    IsPersisted id_format (named (codes "a") ∷ []) (codes "{a}" ∷ []) open_store
unfolding bytes_eq
open_store-IsPersisted = record {
  head = codes "{h}";
  header_line = refl;
  replays = refl;
  lines = (refl, tt);
  holds = refl;
}

open_store-IsJson : IsJson id_format header (named (codes "a") ∷ [])
open_store-IsJson = record {
  header = printed_header header;
  entries = (printed (named (codes "a")), tt);
}

abbrev calm : LoadAnswers
calm = record { read_ok = λ n. true; truncate_ok = true; repair_ok = true }

load_persisted_example :
    load id_format false calm ((codes "{h}" ++ newline ∷ []) ++ joined (codes "{a}" ∷ []))
    ≡ inr (record {
      header = header;
      index = open_store.index;
      file = (codes "{h}" ++ newline ∷ []) ++ joined (codes "{a}" ∷ []);
    })
unfolding open_store-IsPersisted
load_persisted_example =
    load_persisted id_format false calm open_store (named (codes "a") ∷ []) (codes "{a}" ∷ [])
      open_store-IsJson open_store-IsPersisted
      ((codes "{h}" ++ newline ∷ []) ++ joined (codes "{a}" ∷ [])) refl refl (omega arith)
      (omega arith, tt) (omega arith) (λ n. refl)

torn_fails : load_line id_format (codes "{b") 3 header open_store.index ≡ none
unfolding load_line trim_left trim_right before_brace
torn_fails = refl

load_torn_example :
    load id_format false calm
      (((codes "{h}" ++ newline ∷ []) ++ joined (codes "{a}" ∷ [])) ++ codes "{b")
    ≡ inr (record {
      header = header;
      index = open_store.index;
      file = (codes "{h}" ++ newline ∷ []) ++ joined (codes "{a}" ∷ []);
    })
unfolding open_store-IsPersisted
load_torn_example =
    load_torn id_format calm open_store (named (codes "a") ∷ []) (codes "{a}" ∷ [])
      open_store-IsJson open_store-IsPersisted
      ((codes "{h}" ++ newline ∷ []) ++ joined (codes "{a}" ∷ [])) (codes "{b") refl refl
      (omega arith) (omega arith, tt) (omega arith) (λ n. refl) refl refl (omega arith) torn_fails

abbrev works : Answers
works = record {
  now = [];
  v4 = codes "v4";
  uuids = some (codes "00000001") ∷ [];
  mkdir_ok = true;
  create_ok = true;
  lock_ok = true;
  fails_after = none;
  remove_ok = true;
  sync_ok = true;
}

works-Works : Works works
works-Works = record {
  mkdir_ok = refl;
  create_ok = refl;
  lock_ok = refl;
  writes = refl;
  sync_ok = refl;
}

abbrev fresh_store : FileStore
fresh_store = record open_store { index = new_index; disk = none; opened = false }

fresh_store-IsReady : IsReady id_format fresh_store
unfolding bytes_eq
fresh_store-IsReady = record { writable = refl; serializable = (codes "{h}", refl); free = refl }

abbrev naming : Entry
naming = named []

abbrev calls : List Call
calls = append_call works naming ∷ set_leaf_call works (codes "nowhere") ∷ []

file_run_refines_example :
    ((file_run id_format calls fresh_store).0
      ≡ map shown (memory_run id_format calls (view fresh_store)).0)
    × (view (file_run id_format calls fresh_store).1
        ≡ (memory_run id_format calls (view fresh_store)).1)
file_run_refines_example =
    file_run_refines id_format calls fresh_store (works-Works, (works-Works, tt))
      fresh_store-IsReady

-- A first message whose sync fails: the second slice expression is out of range.
sync_panics :
    (append
      (record id_format { marshal = λ e. some (codes "{m}") })
      (record works { sync_ok = false })
      (record naming {
        body = message (user_message (record { content = []; timestamp = 0 })) false;
      })
      fresh_store).0
    ≡ Outcome.panicked
unfolding append create_and_flush drop_last fill_base new_entry_id has find bytes_eq
sync_panics = refl
