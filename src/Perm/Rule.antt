-- ===== src/Perm/Rule.antt =====
-- internal/perm/policy.go: modes, categories and rules, and what a rule covers.
use mixi.Base.{
  Bool, true, false, not, ◌&&◌, ◌||◌, Option, none, some, List, [], ◌∷◌, if◌then◌else◌, drop,
}
use mixi.Base.Bytes.{Bytes, codes, bytes_eq, has_prefix}
use mixi.Perm.Glob.{wildcard_match}
use mixi.Perm.Paths.{slash, join_path}

pub data Mode : Type 0 where
  plan prompt auto_edit yolo : Mode

-- ParseMode; the error names the text
unfoldable pub parse_mode : Bytes → Option Mode
unfolding bytes_eq
parse_mode s =
    if bytes_eq s (codes "plan")
    then some plan
    else if bytes_eq s (codes "prompt")
    then some prompt
    else if bytes_eq s (codes "auto-edit")
    then some auto_edit
    else if bytes_eq s (codes "yolo")
    then some yolo
    else if bytes_eq s []
    then some prompt
    else none

pub data Category : Type 0 where
  read write execute mcp : Category

-- membership in the list of a `case`
unfoldable pub one_of : Bytes → List Bytes → Bool
unfolding bytes_eq
one_of s [] = false
one_of s (t ∷ ts) = bytes_eq s t || one_of s ts

unfoldable pub category_of : Bytes → Category
unfolding one_of has_prefix
category_of tool =
    if one_of tool
      (codes "read" ∷ codes "grep" ∷ codes "find" ∷ codes "ls" ∷ codes "bash_output" ∷ [])
    then read
    else if one_of tool (codes "write" ∷ codes "edit" ∷ [])
    then write
    else if one_of tool (codes "bash" ∷ codes "kill_bash" ∷ [])
    then execute
    else if has_prefix tool (codes "mcp__")
    then mcp
    else execute

-- CallInfo of callinfo.go; an empty text is the source's zero value
pub record CallInfo : Type 0 where
  pub tool : Bytes
  pub category : Category
  pub command : Bytes
  pub path : Bytes
  pub cwd : Bytes

pub record Rule : Type 0 where
  pub tool : Bytes
  pub spec : Bytes
  pub raw : Bytes

abbrev is_mcp : Category → Bool
is_mcp mcp = true
is_mcp _ = false

-- `doublestar.Match(pattern, path)`, with its error read as false, is the third-party glob.
module _ (glob : Bytes → Bytes → Bool) where
  unfoldable pub path_glob_match : Bytes → Bytes → Bytes → Bool
  unfolding has_prefix bytes_eq join_path
  path_glob_match pattern abs_path cwd =
      if bytes_eq abs_path []
      then false
      else if has_prefix pattern (slash ∷ [])
      then glob pattern abs_path
      else if has_prefix pattern (codes "**")
      then glob pattern (if has_prefix abs_path (slash ∷ []) then drop 1 abs_path else abs_path)
      else glob (join_path cwd pattern) abs_path

  -- Rule.Matches
  unfoldable pub matches : Rule → CallInfo → Bool
  matches r c =
      if bytes_eq r.tool []
      then is_mcp c.category && wildcard_match r.spec c.tool
      else if not (bytes_eq r.tool c.tool)
      then false
      else if bytes_eq r.spec []
      then true
      else if bytes_eq r.tool (codes "bash")
      then wildcard_match r.spec c.command
      else path_glob_match r.spec c.path c.cwd

  unfoldable pub first_match : List Rule → CallInfo → Option Rule
  first_match [] c = none
  first_match (r ∷ rs) c = let rest = first_match rs c in if matches r c then some r else rest
