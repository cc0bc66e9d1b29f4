-- ===== src/Session/FileStore/Refined.antt =====
-- internal/session/store.go: the store on disk does what the store in memory does.
use mixi.Base.{
  ℕ, ◌≡◌, refl, ap, ap₂, ◌∙◌, inl, inr, Bool, true, false, not, ◌&&◌, ◌||◌, Option, none, some,
  List, [], ◌∷◌, map, arith, if◌then◌else◌, Bool-cases, Option-cases, All,
}
use mixi.Session.Entry.{Entry}
use mixi.Session.Tree.{add, validate_leaf_target}
use mixi.Session.MemStore.{Draw, MemStore, StoreError, leaf_entry, filled}
use mixi.Session.MemStore
use mixi.Session.FileStore.{
  Format, Answers, FileError, Outcome, done, failed, FileStore, is_message, persist, with_line,
  buffered, create_and_flush, write_line, indexed, append, set_leaf, filled_at, exists, after_flush,
  after_write, sync_failed,
}

-- what the memory store knows of it
abbrev pub view : FileStore → MemStore
view s = record { header = s.header; index = s.index; closed = s.closed }

abbrev pub draw_of : Format → Answers → Draw
draw_of f d = record {
  now = d.now;
  v4 = d.v4;
  uuids = d.uuids;
  marshals = λ e. elim (f.marshal e) [ none ↦ false | some line ↦ true ];
}

-- the outcome that shows the memory store's answer
abbrev pub shown : Option StoreError → Outcome
shown none = done
shown (some StoreError.store_closed) = failed FileError.store_closed
shown (some StoreError.unserializable) = failed FileError.unserializable
shown (some (StoreError.bad_target err)) = failed (FileError.bad_target err)

-- No answer is a failure.
pub record Works (d : Answers) : Type 0 where
  pub mkdir_ok : d.mkdir_ok ≡ true
  pub create_ok : d.create_ok ≡ true
  pub lock_ok : d.lock_ok ≡ true
  pub writes : d.fails_after ≡ none
  pub sync_ok : d.sync_ok ≡ true

-- A store that may write: its header has a line, and no other file stands at its path.
pub record IsReady (f : Format) (s : FileStore) : Type 0 where
  pub writable : s.options.read_only ≡ false
  pub serializable : (head : List ℕ) × (f.marshal_header s.header ≡ some head)
  pub free : (s.closed || s.opened || not (exists s.disk)) ≡ true

-- the new state holds the entry, and is as ready as the old one
pub record Took (f : Format) (e : Entry) (s : FileStore) (r : Outcome × FileStore) : Type 0 where
  pub is_done : r.0 ≡ done
  pub same_view : view r.1 ≡ record (view s) { index = add e s.index }
  pub is_ready : IsReady f r.1

no_sync : (a b c d : Bool) (x y : Outcome) → d ≡ true → (if a && b && c && not d then x else y) ≡ y
no_sync a b c d x y h = ground (arith, h)

no_flush_sync : (a b : Bool) → b ≡ true → (if a && not b then some sync_failed else none) ≡ none
no_flush_sync a b h = ground (arith, h)

no_file :
    (closed opened there : Bool)
    → closed ≡ false
    → opened ≡ false
    → closed || opened || not there ≡ true
    → there ≡ false
no_file closed opened there c o h = ground (arith, c, o, h)

module _ (f : Format) (e : Entry) where
  -- from a state that only writing has changed
  indexed-Took :
      (d : Answers) (s s' : FileStore)
      → d.sync_ok ≡ true
      → view s' ≡ view s
      → IsReady f s'
      → Took f e s (indexed d e s')
  unfolding indexed
  indexed-Took d s s' y v r = record {
    is_done =
        no_sync (is_message e.body) s'.options.fsync s'.opened d.sync_ok (failed sync_failed) done
          y;
    same_view = ap (λ (m : MemStore). record m { index = add e m.index }) v;
    is_ready = record { writable = r.writable; serializable = r.serializable; free = r.free };
  }

  flushed-Took :
      (d : Answers) (err : Option FileError) (s s' : FileStore)
      → err ≡ none
      → d.sync_ok ≡ true
      → view s' ≡ view s
      → IsReady f s'
      → Took f e s (after_flush d e (err, s'))
  flushed-Took d none s s' q y v r = indexed-Took d s s' y v r
  flushed-Took d (some err) s s' q y v r = absurd (cc q)

  write-Took :
      (d : Answers) (line : List ℕ) (s : FileStore)
      → Works d
      → s.opened ≡ true
      → IsReady f s
      → Took f e s (after_write d e (write_line d line s))
  unfolding write_line
  write-Took d line s w o r = rw w.writes (
      indexed-Took _ s _ w.sync_ok refl
        (record { writable = r.writable; serializable = r.serializable; free = ground (arith, o) }))

  flush-Took :
      (d : Answers) (line : List ℕ) (s : FileStore)
      → Works d
      → exists s.disk ≡ false
      → IsReady f s
      → Took f e s (after_flush d e (create_and_flush f d (buffered line s)))
  unfolding create_and_flush
  flush-Took d line s w o r =
      rw (w.mkdir_ok, w.create_ok, w.lock_ok, o, r.serializable.1, w.writes)
        (flushed-Took _ _ s _ (no_flush_sync s.options.fsync d.sync_ok w.sync_ok) w.sync_ok refl
          (record { writable = r.writable; serializable = r.serializable; free = ground arith }))

  persist-Took :
      (opened is_msg : Bool) (d : Answers) (line : List ℕ) (s : FileStore)
      → s.opened ≡ opened
      → Works d
      → s.closed ≡ false
      → IsReady f s
      → Took f e s (persist opened is_msg f d line e s)
  persist-Took true m d line s o w c r = write-Took d line s w o r
  persist-Took false true d line s o w c r =
      flush-Took d line s w (no_file s.closed s.opened (exists s.disk) c o r.free) r
  persist-Took false false d line s o w c r =
      indexed-Took d s (buffered line s) w.sync_ok refl
        (record { writable = r.writable; serializable = r.serializable; free = r.free })

-- what the store in memory answers to the same call, and the state is as ready as before
abbrev pub Matches : Format → Outcome × FileStore → Option StoreError × MemStore → Type 0
Matches f r m = (r.0 ≡ shown m.0) × (view r.1 ≡ m.1) × IsReady f r.1

module _ (f : Format) (d : Answers) (w : Works d) where
  -- past the two guards of Append
  guarded :
      (c ro : Bool) (x x1 x2 : Outcome × FileStore) (m m1 : Option StoreError × MemStore)
      → c ≡ false
      → ro ≡ false
      → Matches f x m
      → Matches f (if c then x1 else if ro then x2 else x) (if c then m1 else m)
  guarded c ro x x1 x2 m m1 p q h = rw (p, q) h

  with_line-matches :
      (e : Entry) (s : FileStore)
      → s.closed ≡ false
      → IsReady f s
      → Matches f (with_line (f.marshal e) f d e s) (
          if elim (f.marshal e) [ none ↦ false | some line ↦ true ]
          then (none, record (view s) { index = add e s.index })
          else (some StoreError.unserializable, view s))
  with_line-matches e s c r = elim (Option-cases (f.marshal e)) [
    | inl q ↦ rw q (refl, refl, r)
    | inr (line, q) ↦
        let t : Took f e s (persist s.opened (is_message e.body) f d line e s) =
          persist-Took f e s.opened (is_message e.body) d line s refl w c r in
        rw q (t.is_done, t.same_view, t.is_ready)
  ]

  append-matches :
      (e : Entry) (s : FileStore)
      → IsReady f s
      → Matches f (append f d e s) (MemStore.append (draw_of f d) e (view s))
  unfolding append MemStore.append
  append-matches e s r = elim (Bool-cases s.closed) [
    | inl c ↦ simp c (refl, refl, r)
    | inr c ↦
        guarded s.closed s.options.read_only _ _ _ _ _ c r.writable
          (with_line-matches (filled_at d e s) s c r)
  ]

  set_leaf-matches :
      (target : List ℕ) (s : FileStore)
      → IsReady f s
      → Matches f (set_leaf f d target s) (MemStore.set_leaf (draw_of f d) target (view s))
  unfolding set_leaf MemStore.set_leaf
  set_leaf-matches target s r = elim (Option-cases (validate_leaf_target target s.index)) [
    | inl q ↦ rw q (append-matches (leaf_entry target) s r)
    | inr (err, q) ↦ rw q (refl, refl, r)
  ]

-- A call of the store's methods that change it, with the answers that the outside gives.
pub data Call : Type 0 where
  append_call : Answers → Entry → Call
  set_leaf_call : Answers → List ℕ → Call

abbrev pub answers : Call → Answers
answers (append_call d e) = d
answers (set_leaf_call d target) = d

abbrev pub on_file : Format → Call → FileStore → Outcome × FileStore
on_file f (append_call d e) s = append f d e s
on_file f (set_leaf_call d target) s = set_leaf f d target s

abbrev pub in_memory : Format → Call → MemStore → Option StoreError × MemStore
in_memory f (append_call d e) s = MemStore.append (draw_of f d) e s
in_memory f (set_leaf_call d target) s = MemStore.set_leaf (draw_of f d) target s

-- the outcomes of a list of calls and the state after them
unfoldable pub file_run : Format → List Call → FileStore → List Outcome × FileStore
file_run f [] s = ([], s)
file_run f (c ∷ cs) s = let (o, s') = on_file f c s in let (os, t) = file_run f cs s' in (o ∷ os, t)

unfoldable pub memory_run : Format → List Call → MemStore → List (Option StoreError) × MemStore
memory_run f [] s = ([], s)
memory_run f (c ∷ cs) s =
    let (o, s') = in_memory f c s in let (os, t) = memory_run f cs s' in (o ∷ os, t)

call-matches :
    (f : Format) (c : Call) (s : FileStore)
    → Works (answers c)
    → IsReady f s
    → Matches f (on_file f c s) (in_memory f c (view s))
call-matches f (append_call d e) s w r = append-matches f d w e s r
call-matches f (set_leaf_call d target) s w r = set_leaf-matches f d w target s r

-- While nothing that the store asks of the file system fails, a store on disk that may write does
-- what the store in memory does: the same calls of Append and SetLeaf end in the same errors, and
-- afterwards both have the same header, index and leaf.
pub file_run_refines :
    (f : Format) (cs : List Call) (s : FileStore)
    → All (λ c. Works (answers c)) cs
    → IsReady f s
    → ((file_run f cs s).0 ≡ map shown (memory_run f cs (view s)).0)
      × (view (file_run f cs s).1 ≡ (memory_run f cs (view s)).1)
unfolding file_run memory_run
file_run_refines f [] s w r = (refl, refl)
file_run_refines f (c ∷ cs) s (w, ws) r =
    let (same, seen, ready) = call-matches f c s w r in
    let (outs, state) = file_run_refines f cs (on_file f c s).1 ws ready in
    (
      ap₂ (λ o os. o ∷ os) same (outs ∙ ap (λ m. map shown (memory_run f cs m).0) seen),
      state ∙ ap (λ m. (memory_run f cs m).1) seen,
    )
