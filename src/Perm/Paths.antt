-- ===== src/Perm/Paths.antt =====
-- path/filepath on Unix, as internal/perm/callinfo.go, globmatch.go and grants.go call it.
use mixi.Base.{
  ℕ, Bool, not, ◌&&◌, ◌||◌, Option, none, some, List, [], ◌∷◌, ◌++◌, map, reverse, ◌==◌,
  if◌then◌else◌,
}
use mixi.Base.Bytes.{Bytes, bytes_eq, has_prefix, split, join}

abbrev pub slash : ℕ
slash = b'/'

unfoldable pub is_abs : Bytes → Bool
unfolding has_prefix
is_abs path = has_prefix path (slash ∷ [])

abbrev dot_dot : Bytes
dot_dot = b'.' ∷ b'.' ∷ []

-- one ".." on the stack of components kept so far
go_up : Bool → List Bytes → List Bytes
unfolding bytes_eq
go_up rooted [] = if rooted then [] else dot_dot ∷ []
go_up rooted (top ∷ kept) = if bytes_eq top dot_dot then dot_dot ∷ (top ∷ kept) else kept

-- The components of a path in reverse, with empty ones and "." dropped and ".." resolved.
clean_parts : Bool → List Bytes → List Bytes → List Bytes
unfolding go_up
clean_parts rooted kept [] = kept
clean_parts rooted kept (p ∷ ps) =
    clean_parts rooted
      (if bytes_eq p [] || bytes_eq p (b'.' ∷ [])
        then kept
        else if bytes_eq p dot_dot
        then go_up rooted kept
        else p ∷ kept)
      ps

-- the components of filepath.Clean(path)
components : Bytes → List Bytes
unfolding clean_parts is_abs split
components path = reverse (clean_parts (is_abs path) [] (split slash path))

unrooted : List Bytes → Bytes
unfolding join
unrooted [] = b'.' ∷ []
unrooted (p ∷ ps) = join slash (p ∷ ps)

unfoldable pub clean : Bytes → Bytes
unfolding components unrooted
clean path =
    if is_abs path then slash ∷ join slash (components path) else unrooted (components path)

-- filepath.Join of two elements: empty ones are ignored
unfoldable pub join_path : Bytes → Bytes → Bytes
unfolding clean
join_path [] [] = []
join_path [] b = clean b
join_path a [] = clean a
join_path a b = clean (a ++ (slash ∷ b))

-- what stands before the last slash, the slash included
upto_slash : Bytes → Bytes → Bytes
upto_slash [] seen = []
upto_slash (c ∷ s) seen =
    let rest = upto_slash s (seen ++ c ∷ []) in
    if c == slash && bytes_eq rest [] then seen ++ c ∷ [] else rest

unfoldable pub dir : Bytes → Bytes
unfolding upto_slash clean
dir path = clean (upto_slash path [])

last_part : List Bytes → Bytes
last_part [] = []
last_part (p ∷ []) = p
last_part (p ∷ q ∷ ps) = last_part (q ∷ ps)

-- filepath.Base of a path that Clean or Dir returned
unfoldable pub base : Bytes → Bytes
unfolding components last_part
base path = elim (components path) [
  | [] ↦ if is_abs path then slash ∷ [] else b'.' ∷ []
  | p ∷ ps ↦ last_part (p ∷ ps)
]

-- drops the components that both paths begin with
rel_parts : List Bytes → List Bytes → Option (List Bytes)
rel_parts [] targ = some targ
rel_parts (b ∷ bs) [] = if bytes_eq b dot_dot then none else some (map (λ _. dot_dot) (b ∷ bs))
rel_parts (b ∷ bs) (t ∷ ts) =
    let rest = rel_parts bs ts in
    if bytes_eq b t
    then rest
    else if bytes_eq b dot_dot
    then none
    else some (map (λ _. dot_dot) (b ∷ bs) ++ t ∷ ts)

-- The components of filepath.Rel(base, targ); `none` is its error. No component is "." .
unfoldable pub rel : Bytes → Bytes → Option (List Bytes)
unfolding components rel_parts
rel from targ =
    if is_abs from && not (is_abs targ) || not (is_abs from) && is_abs targ
    then none
    else rel_parts (components from) (components targ)
