-- ===== src/Compact/FileLists.antt =====
-- internal/compact/fileops.go: the cumulative lists of files read and modified. A set of paths is
-- the list of its members in bytewise order, which is what sortedKeys makes of it.
use mixi.Base.{
  ◌≡◌, refl, sym, ap, ◌∙◌, subst, inl, inr, Bool, true, false, not, ◌&&◌, ◌||◌, List, [], ◌∷◌, ltb,
  ◌==◌, if◌then◌else◌, Bool-cases,
}
use mixi.Base.Bytes.{Bytes, bytes_eq, eq_of_bytes_eq}
use mixi.Session.Entry.{FileLists}

unfoldable pub bytes_lt : Bytes → Bytes → Bool
bytes_lt s [] = false
bytes_lt [] (c ∷ t) = true
bytes_lt (b ∷ s) (c ∷ t) = let rest = bytes_lt s t in if b == c then rest else ltb b c

unfoldable pub insert_key : Bytes → List Bytes → List Bytes
insert_key p [] = p ∷ []
insert_key p (q ∷ qs) =
    let rest = insert_key p qs in
    if bytes_eq p q then q ∷ qs else if bytes_lt p q then p ∷ q ∷ qs else q ∷ rest

-- Each path of a list put into a set
unfoldable pub insert_all : List Bytes → List Bytes → List Bytes
insert_all [] set = set
insert_all (p ∷ ps) set = insert_key p (insert_all ps set)

unfoldable pub member : Bytes → List Bytes → Bool
member p [] = false
member p (q ∷ qs) = bytes_eq q p || member p qs

unfoldable pub remove_all : List Bytes → List Bytes → List Bytes
remove_all gone [] = []
remove_all gone (p ∷ ps) = let rest = remove_all gone ps in if member p gone then rest else p ∷ rest

unfoldable pub merge_file_lists : FileLists → (read written : List Bytes) → FileLists
merge_file_lists prev read written =
    let modified = insert_all written (insert_all prev.modified_files []) in
    let read_set = insert_all read (insert_all prev.read_files []) in
    record { read_files = remove_all modified read_set; modified_files = modified }

member-insert_key :
    (x p : Bytes) (qs : List Bytes) → member x (insert_key p qs) ≡ bytes_eq p x || member x qs
unfolding member insert_key
member-insert_key x p [] = refl
member-insert_key x p (q ∷ qs) = elim (Bool-cases (bytes_eq p q)) [
  | inl e ↦ rw e (again (eq_of_bytes_eq p q e))
  | inr e ↦ elim (Bool-cases (bytes_lt p q)) [
    | inl l ↦ rw (e, l)
    | inr l ↦
        rw (e, l) (swap (bytes_eq q x) (bytes_eq p x) (member x qs) (member-insert_key x p qs))
  ]
]
  where
    twice : (a b : Bool) → a || b ≡ a || (a || b)
    twice true b = refl
    twice false b = refl

    again : p ≡ q → bytes_eq q x || member x qs ≡ bytes_eq p x || (bytes_eq q x || member x qs)
    again h = rw (sym h) (twice (bytes_eq p x) (member x qs))

    swap : (a b c : Bool) {d : Bool} → d ≡ b || c → a || d ≡ b || (a || c)
    swap true true c h = refl
    swap true false c h = refl
    swap false b c h = h

member-insert_all :
    (x : Bytes) (ps set : List Bytes) → member x (insert_all ps set) ≡ member x ps || member x set
unfolding member insert_all
member-insert_all x [] set = refl
member-insert_all x (p ∷ ps) set =
    member-insert_key x p (insert_all ps set)
    ∙ (ap (λ b. bytes_eq p x || b) (member-insert_all x ps set)
        ∙ or_assoc (bytes_eq p x) (member x ps) (member x set))
  where
    or_assoc : (a b c : Bool) → a || (b || c) ≡ a || b || c
    or_assoc true b c = refl
    or_assoc false b c = refl

member-remove_all :
    (x : Bytes) (gone ps : List Bytes)
    → member x (remove_all gone ps) ≡ member x ps && not (member x gone)
unfolding remove_all member
member-remove_all x gone [] = refl
member-remove_all x gone (p ∷ ps) = elim (Bool-cases (bytes_eq p x)) [
  | inl e ↦
      let same : p ≡ x = eq_of_bytes_eq p x e in
      elim (Bool-cases (member p gone)) [
        | inl g ↦
            let k : member x gone ≡ true = subst (λ y. member y gone ≡ true) same g in
            rw (g, e) (member-remove_all x gone ps ∙ rw k (never (member x ps)))
        | inr g ↦
            let k : member x gone ≡ false = subst (λ y. member y gone ≡ false) same g in
            rw (g, e, k)
      ]
  | inr e ↦ elim (Bool-cases (member p gone)) [
    | inl g ↦ rw (g, e) (member-remove_all x gone ps)
    | inr g ↦ rw (g, e) (member-remove_all x gone ps)
  ]
]
  where
    never : (a : Bool) → a && false ≡ false
    never true = refl
    never false = refl

-- A path is listed as modified just when the last compaction had it so or it was written since, and
-- as read just when it was read, then or since, and is not listed as modified.
pub merge_file_lists-member :
    (x : Bytes) (prev : FileLists) (read written : List Bytes)
    → (let m = merge_file_lists prev read written in
        (member x m.modified_files ≡ member x written || member x prev.modified_files)
        × (member x m.read_files
            ≡ (member x read || member x prev.read_files) && not (member x m.modified_files)))
unfolding merge_file_lists member
merge_file_lists-member x prev read written = (
  inserted written prev.modified_files,
  member-remove_all x (insert_all written (insert_all prev.modified_files []))
        (insert_all read (insert_all prev.read_files []))
      ∙ ap (λ b. b && not (member x (insert_all written (insert_all prev.modified_files []))))
          (inserted read prev.read_files),
)
  where
    or_false : (a : Bool) → a || false ≡ a
    or_false true = refl
    or_false false = refl

    inserted :
        (ps qs : List Bytes)
        → member x (insert_all ps (insert_all qs [])) ≡ member x ps || member x qs
    inserted ps qs =
        member-insert_all x ps (insert_all qs [])
        ∙ ap (λ b. member x ps || b) (member-insert_all x qs [] ∙ or_false (member x qs))
