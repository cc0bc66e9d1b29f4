-- ===== src/Session/Loader/Recovered.antt =====
-- internal/session/loader.go: what a file that the store wrote loads as.
use mixi.Base.Lines.{newline, raw_lines, raw_lines_some, raw_lines-append, raw_lines_last}
use mixi.Base.{
  ℕ, suc, ◌+◌, ◌≤◌, ◌≡◌, refl, sym, ap, ap₂, ◌∙◌, subst, ◌⊎◌, inr, Bool, true, false, none, some,
  List, [], ◌∷◌, ◌++◌, append-nil, append_assoc, arith, ◌==◌, if◌then◌else◌, length, All, any,
}
use mixi.Base.Bytes.{Bytes}
use mixi.Session.Entry.{Entry, Header}
use mixi.Session.Tree.{Index, add, new_index}
use mixi.Session.FileStore.{Format, FileStore, joined}
use mixi.Session.FileStore.Persisted.{Lines, IsPersisted, replay, FileHolds}
use mixi.Session.Loader.{
  load_line, load_lines, load, LoadAnswers, LoadError, Session, if_read, go_on, max_line_bytes,
  no_header_yet, parse_line, last_line, finish, set_header, add_entry, trim_left, trim_right,
}
use mixi.Session.Loader.Lines.{IsObject, trim_space_object}

-- An entry's line is an object on one line, and is read back.
abbrev pub IsReadable : Format → Entry → Type 0
IsReadable f e = (l : Bytes) → f.marshal e ≡ some l → IsObject l × (f.unmarshal l ≡ some e)

-- What json.Marshal prints of a header and of some entries are objects on one line, and are read
-- back.
pub record IsJson (f : Format) (h : Header) (es : List Entry) : Type 0 where
  pub header :
      (l : Bytes) → f.marshal_header h ≡ some l → IsObject l × (f.unmarshal_header l ≡ some h)
  pub entries : All (IsReadable f) es

-- A line within the limit, its newline counted.
abbrev pub Fits : Bytes → Type 0
Fits l = length (l ++ newline ∷ []) ≤ max_line_bytes

parse_object :
    (f : Format) (l : Bytes) (n : ℕ) (h : Header) (x : Index)
    → IsObject l
    → parse_line f l n h x
      ≡ (if n == 1 then set_header (f.unmarshal_header l) x else add_entry (f.unmarshal l) h x)
parse_object f l n h x o = rw o.braces refl

module _ (f : Format) (read_only : Bool) (d : LoadAnswers) (file : Bytes) where
  step_line :
      (line rest : Bytes) (n : ℕ) (before : Bytes) (h : Header) (x : Index)
      → load_lines f read_only d file (line ∷ raw_lines rest) n before h x
        ≡ if_read d n line (
            go_on
              (suc n)
              (load_line f line (suc n) h x)
              (load_lines f read_only d file (raw_lines rest) (suc n) (before ++ line)))
  unfolding load_lines
  step_line line rest n before h x = let (l, ls, q) = raw_lines_some rest in rw q refl

  read_line :
      (line : Bytes) (n : ℕ) (r : LoadError ⊎ Session)
      → d.read_ok n ≡ true
      → length line ≤ max_line_bytes
      → if_read d n line r ≡ r
  read_line line n r a b = ground (arith, a, b)

  load_line_entry :
      (e : Entry) (l : Bytes) (n : ℕ) (h : Header) (x : Index)
      → IsObject l × (f.unmarshal l ≡ some e)
      → 1 ≤ n
      → load_line f (l ++ newline ∷ []) (suc n) h x ≡ some (h, add e x)
  unfolding load_line
  load_line_entry e l n h x (o, q) m =
      rw (trim_space_object l o) (parse_object f l (suc n) h x o ∙ rw q (ground arith))

  load_line_header :
      (g h : Header) (l : Bytes) (x : Index)
      → IsObject l × (f.unmarshal_header l ≡ some g)
      → load_line f (l ++ newline ∷ []) 1 h x ≡ some (g, x)
  unfolding load_line
  load_line_header g h l x (o, q) =
      rw (trim_space_object l o) (parse_object f l 1 h x o ∙ rw q refl)

  -- the lines of the entries, and what comes after them
  load_entries :
      (es : List Entry) (ls : List Bytes) (rest : Bytes) (n : ℕ) (before : Bytes) (h : Header)
      (x : Index)
      → All (IsReadable f) es
      → Lines f es ls
      → All Fits ls
      → ((n : ℕ) → d.read_ok n ≡ true)
      → 1 ≤ n
      → load_lines f read_only d file (raw_lines (joined ls ++ rest)) n before h x
        ≡ load_lines f read_only d file
            (raw_lines rest)
            (length ls + n)
            (before ++ joined ls)
            h
            (replay es x)
  unfolding joined
  load_entries [] [] rest n before h x r k fit ok m =
      ap₂ (λ i b. load_lines f read_only d file (raw_lines rest) i b h x) (omega arith)
        (sym (append-nil before))
  load_entries [] (l ∷ ls) rest n before h x r k fit ok m = absurd k
  load_entries (e ∷ es) [] rest n before h x r k fit ok m = absurd k
  load_entries (e ∷ es) (l ∷ ls) rest n before h x (r, rs) (q, k) (fit, fits) ok m =
      let line : Bytes = l ++ newline ∷ [] in
      ap (λ t. load_lines f read_only d file (raw_lines t) n before h x)
        (append_assoc line (joined ls) rest)
      ∙ (ap (λ t. load_lines f read_only d file t n before h x)
            (raw_lines-append l (joined ls ++ rest) (r l q).0.one_line)
          ∙ (step_line line (joined ls ++ rest) n before h x
              ∙ (read_line line n _ (ok n) fit
                  ∙ (ap
                        (λ o. go_on (suc n) o (
                          load_lines f read_only d file (raw_lines (joined ls ++ rest)) (suc n)
                            (before ++ line)))
                        (load_line_entry e l n h x (r l q) m)
                      ∙ (load_entries es ls rest (suc n) (before ++ line) h (add e x) rs k fits ok
                            (omega arith)
                          ∙ ap₂
                              (λ i b.
                                load_lines f read_only d file (raw_lines rest) i b h
                                  (replay es (add e x)))
                              (omega arith) (append_assoc before line (joined ls)))))))

  load_content :
      (h : Header) (head : Bytes) (es : List Entry) (ls : List Bytes) (rest : Bytes)
      (j : IsJson f h es)
      → f.marshal_header h ≡ some head
      → Fits head
      → Lines f es ls
      → All Fits ls
      → ((n : ℕ) → d.read_ok n ≡ true)
      → load_lines f read_only d file
          (raw_lines (((head ++ newline ∷ []) ++ joined ls) ++ rest))
          0
          []
          no_header_yet
          new_index
        ≡ load_lines f read_only d file
            (raw_lines rest)
            (length ls + 1)
            ((head ++ newline ∷ []) ++ joined ls)
            h
            (replay es new_index)
  load_content h head es ls rest j q fit k fits ok =
      let line : Bytes = head ++ newline ∷ [] in
      ap (λ t. load_lines f read_only d file (raw_lines t) 0 [] no_header_yet new_index)
        (append_assoc line (joined ls) rest)
      ∙ (ap (λ t. load_lines f read_only d file t 0 [] no_header_yet new_index)
            (raw_lines-append head (joined ls ++ rest) (j.header head q).0.one_line)
          ∙ (step_line line (joined ls ++ rest) 0 [] no_header_yet new_index
              ∙ (read_line line 0 _ (ok 0) fit
                  ∙ (ap
                        (λ o.
                          go_on 1 o
                            (load_lines f read_only d file (raw_lines (joined ls ++ rest)) 1 line))
                        (load_line_header h no_header_yet head new_index (j.header head q))
                      ∙ load_entries es ls rest 1 line h new_index j.entries k fits ok
                          (omega arith)))))

at_end :
    (n : ℕ) (h : Header) (x : Index) (file : Bytes)
    → 1 ≤ n
    → 1 ≤ h.version
    → finish n h x file ≡ inr (record { header = h; index = x; file = file })
at_end n h x file m v = ground (arith, m, v)

same_some : {A : Type 0} {a b : A} → some a ≡ some b → a ≡ b
same_some h = cc h

whole_end :
    (f : Format) (read_only : Bool) (d : LoadAnswers) (file : Bytes) (n : ℕ) (before : Bytes)
    (h : Header) (x : Index)
    → d.read_ok n ≡ true
    → 1 ≤ n
    → 1 ≤ h.version
    → load_lines f read_only d file (raw_lines []) n before h x
      ≡ inr (record { header = h; index = x; file = file })
unfolding load_lines raw_lines
whole_end f read_only d file n before h x ok m v = rw ok (at_end n h x file m v)

last_torn :
    (f : Format) (d : LoadAnswers) (torn : Bytes) (n : ℕ) (h : Header) (x : Index)
    (before file : Bytes)
    → d.truncate_ok ≡ true
    → 1 ≤ n
    → 1 ≤ h.version
    → load_line f torn (suc n) h x ≡ none
    → last_line f false d torn n h x before file
      ≡ inr (record { header = h; index = x; file = before })
unfolding load_line trim_left trim_right
last_torn f d [] n h x before file cut m v bad = absurd (cc bad)
last_torn f d (c ∷ s) n h x before file cut m v bad =
    rw (load_line, bad) (ground (arith, cut, m, v))

torn_end :
    (f : Format) (d : LoadAnswers) (file torn : Bytes) (n : ℕ) (before : Bytes) (h : Header)
    (x : Index)
    → any (λ c. c == newline) torn ≡ false
    → d.read_ok n ≡ true
    → length torn ≤ max_line_bytes
    → d.truncate_ok ≡ true
    → 1 ≤ n
    → 1 ≤ h.version
    → load_line f torn (suc n) h x ≡ none
    → load_lines f false d file (raw_lines torn) n before h x
      ≡ inr (record { header = h; index = x; file = before })
unfolding load_lines
torn_end f d file torn n before h x nl ok len cut m v bad =
    rw (raw_lines_last torn nl)
      (read_line f false d file torn n _ ok len ∙ last_torn f d torn n h x before file cut m v bad)

-- What the store wrote is what a later load reads: the file of an open store loads, without a
-- change to it, as the header and the index of that store. The conditions are that the
-- lines of the store's header and entries are objects that read back as what they were printed from,
-- that the header has a version, that reads do not fail, and that no line is longer than the limit,
-- which Append does not check.
pub load_persisted :
    (f : Format) (read_only : Bool) (d : LoadAnswers) (s : FileStore) (es : List Entry)
    (ls : List Bytes) (j : IsJson f s.header es) (p : IsPersisted f es ls s) (file : Bytes)
    → s.opened ≡ true
    → s.disk ≡ some file
    → Fits p.head
    → All Fits ls
    → 1 ≤ s.header.version
    → ((n : ℕ) → d.read_ok n ≡ true)
    → load f read_only d file ≡ inr (record { header = s.header; index = s.index; file = file })
unfolding load
load_persisted f read_only d s es ls j p file o b fit fits v ok =
    let c : Bytes = (p.head ++ newline ∷ []) ++ joined ls in
    let held : s.disk ≡ some c = subst (λ b. FileHolds p.head ls b s.disk s.pending) o p.holds in
    let q : file ≡ c = same_some (sym b ∙ held) in
    ap (λ t. load_lines f read_only d file (raw_lines t) 0 [] no_header_yet new_index)
      (q ∙ sym (append-nil c))
    ∙ (load_content f read_only d file s.header p.head es ls [] j p.header_line fit p.lines fits ok
        ∙ (whole_end f read_only d file (length ls + 1) c s.header (replay es new_index) (ok _)
              (omega arith) v
            ∙ ap (λ x. inr (record { header = s.header; index = x; file = file })) (sym p.replays)))

-- A crash in the middle of an append leaves the file of the store and a torn line, which has no
-- newline and does not parse. Loading it to write gives the header and the index of the store before
-- that append, and cuts the file back to what the store had written. The conditions are those of a
-- load of the whole file, and that the torn line is not too long and the file can be cut.
pub load_torn :
    (f : Format) (d : LoadAnswers) (s : FileStore) (es : List Entry) (ls : List Bytes)
    (j : IsJson f s.header es) (p : IsPersisted f es ls s) (file torn : Bytes)
    → s.opened ≡ true
    → s.disk ≡ some file
    → Fits p.head
    → All Fits ls
    → 1 ≤ s.header.version
    → ((n : ℕ) → d.read_ok n ≡ true)
    → d.truncate_ok ≡ true
    → any (λ c. c == newline) torn ≡ false
    → length torn ≤ max_line_bytes
    → load_line f torn (suc (length ls + 1)) s.header s.index ≡ none
    → load f false d (file ++ torn)
      ≡ inr (record { header = s.header; index = s.index; file = file })
unfolding load
load_torn f d s es ls j p file torn o b fit fits v ok cut nl len bad =
    let c : Bytes = (p.head ++ newline ∷ []) ++ joined ls in
    let held : s.disk ≡ some c = subst (λ b. FileHolds p.head ls b s.disk s.pending) o p.holds in
    let q : file ≡ c = same_some (sym b ∙ held) in
    ap
      (λ t.
        load_lines f false d (file ++ torn) (raw_lines (t ++ torn)) 0 [] no_header_yet new_index)
      q
    ∙ (load_content f false d (file ++ torn) s.header p.head es ls torn j p.header_line fit p.lines
          fits ok
        ∙ (ap
              (λ x.
                load_lines f false d (file ++ torn) (raw_lines torn) (length ls + 1) c s.header x)
              (sym p.replays)
            ∙ (torn_end f d (file ++ torn) torn (length ls + 1) c s.header s.index nl (ok _) len cut
                  (omega arith) v bad
                ∙ ap (λ t. inr (record { header = s.header; index = s.index; file = t })) (sym q))))
