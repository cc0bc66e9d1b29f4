-- ===== src/Perm/Call.antt =====
-- internal/perm/callinfo.go: what a call is about, and the tests on its path.
use mixi.Base.{
  ℕ, zero, suc, ◌+◌, Bool, true, false, ◌&&◌, ◌||◌, Option, none, some, List, [], ◌∷◌, map, leb,
  if◌then◌else◌, length,
}
use mixi.Base.Bytes.{Bytes, codes, bytes_eq}
use mixi.Perm.Paths.{clean, join_path, is_abs, dir, base, rel}
use mixi.Perm.Rule.{category_of, one_of, CallInfo, path_glob_match}

-- Raw tool arguments, as json.Unmarshal into a struct of one string field reads them.
pub data Value : Type 0 where
  null : Value
  text : Bytes → Value
  other : Value

pub data Args : Type 0 where
  malformed : Args
  null : Args
  object : List (Bytes × Value) → Args
  other : Args

pub record ToolCall : Type 0 where
  pub name : Bytes
  pub args : Args

lower : ℕ → ℕ
lower c = if leb b'A' c && leb c b'Z' then c + 32 else c

-- encoding/json matches keys without regard to case
same_key : Bytes → Bytes → Bool
unfolding lower bytes_eq
same_key a b = bytes_eq (map lower a) (map lower b)

-- the last matching key wins, null leaves the field as it is, and another type is an error
unmarshal_fields : Bytes → Bytes → List (Bytes × Value) → Option Bytes
unfolding same_key
unmarshal_fields name old [] = some old
unmarshal_fields name old ((k, text v) ∷ fields) =
    unmarshal_fields name (if same_key k name then v else old) fields
unmarshal_fields name old ((k, null) ∷ fields) = unmarshal_fields name old fields
unmarshal_fields name old ((k, other) ∷ fields) =
    let rest = unmarshal_fields name old fields in if same_key k name then none else rest

unmarshal_field : Bytes → Args → Option Bytes
unfolding unmarshal_fields
unmarshal_field name malformed = none
unmarshal_field name null = some []
unmarshal_field name (object fields) = unmarshal_fields name [] fields
unmarshal_field name other = none

or_empty : Option Bytes → Bytes
or_empty none = []
or_empty (some s) = s

call_path : Bytes → Bytes → Bytes
unfolding bytes_eq is_abs clean join_path
call_path cwd p = if bytes_eq p [] then [] else if is_abs p then clean p else join_path cwd p

unfoldable pub describe_call : ToolCall → Bytes → CallInfo
unfolding unmarshal_field or_empty call_path one_of category_of
describe_call call cwd = record {
  tool = call.name;
  category = category_of call.name;
  command =
      if bytes_eq call.name (codes "bash")
      then or_empty (unmarshal_field (codes "command") call.args)
      else [];
  path =
      if one_of call.name (
        codes "read" ∷ codes "write" ∷ codes "edit" ∷ codes "grep" ∷ codes "find" ∷ codes "ls" ∷ [])
      then call_path cwd (or_empty (unmarshal_field (codes "path") call.args))
      else [];
  cwd = cwd;
}

secret_globs : List Bytes
secret_globs = codes "**/.env*" ∷ codes "**/*_rsa" ∷ codes "**/credentials*" ∷ []

matches_any_glob : (Bytes → Bytes → Bool) → List Bytes → Bytes → Bytes → Bool
unfolding path_glob_match
matches_any_glob glob [] abs_path cwd = false
matches_any_glob glob (g ∷ gs) abs_path cwd =
    path_glob_match glob g abs_path cwd || matches_any_glob glob gs abs_path cwd

unfoldable pub matches_secret_glob : (Bytes → Bytes → Bool) → Bytes → Bytes → Bool
unfolding secret_globs matches_any_glob
matches_secret_glob glob abs_path cwd = matches_any_glob glob secret_globs abs_path cwd

-- resolveDeepestExisting: `at` climbs to the root, and `rest` is what it has passed
resolve_from : (Bytes → Option Bytes) → ℕ → Bytes → Bytes → Bytes → Bytes
unfolding dir base join_path bytes_eq
resolve_from eval_symlinks zero path at rest = path
resolve_from eval_symlinks (suc fuel) path at rest = elim (eval_symlinks at) [
  | some resolved ↦ join_path resolved rest
  | none ↦
      let higher = resolve_from eval_symlinks fuel path (dir at) (join_path (base at) rest) in
      if bytes_eq (dir at) at then path else higher
]

resolve_deepest_existing : (Bytes → Option Bytes) → Bytes → Bytes
unfolding resolve_from
resolve_deepest_existing eval_symlinks path =
    resolve_from eval_symlinks (length path + 1) path path []

starts_dot_dot : Option (List Bytes) → Bool
unfolding bytes_eq
starts_dot_dot none = true
starts_dot_dot (some []) = false
starts_dot_dot (some (p ∷ ps)) = bytes_eq p (codes "..")

or_self : Option Bytes → Bytes → Bytes
or_self none s = s
or_self (some r) s = r

unfoldable pub outside_cwd? : (Bytes → Option Bytes) → Bytes → Bytes → Bool
unfolding or_self resolve_deepest_existing starts_dot_dot rel
outside_cwd? eval_symlinks abs_path cwd =
    starts_dot_dot
      (rel (or_self (eval_symlinks cwd) cwd) (resolve_deepest_existing eval_symlinks abs_path))
