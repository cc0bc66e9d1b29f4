-- ===== src/Perm/Policy.antt =====
-- internal/perm/policy.go: the rule grammar and the construction of a Policy.
pub mod Grammar
use mathlib.Core.Option
use mixi.Base.{
  ◌+◌, Bool, not, ◌&&◌, Option, none, some, List, [], ◌∷◌, ◌++◌, ◌==◌, if◌then◌else◌, length, drop,
}
use mixi.Base.Bytes.{Bytes, codes, bytes_eq, has_prefix}
use mixi.Perm.Rule.{Mode, parse_mode, Rule}

pub data ParseError : Type 0 where
  unknown_mode : Bytes → ParseError
  bad_rule bad_glob : Bytes → Bytes → ParseError
  bad_regex : Bytes → ParseError

pub data Result {ℓ} (A : Type ℓ) : Type ℓ where
  ok : A → Result A
  err : ParseError → Result A

infixl 5 ◌>>=◌
abbrev pub ◌>>=◌ {ℓ κ} : {A : Type ℓ} {B : Type κ} → Result A → (A → Result B) → Result B
ok a >>= f = f a
err e >>= f = err e

-- `(.+)\)$`: what stands before the last byte, which is ")"; it is not empty and has no newline
closed : Bytes → Option Bytes
closed [] = none
closed (c ∷ []) = if c == b')' then some [] else none
closed (c ∷ d ∷ s) =
    let rest = closed (d ∷ s) in if c == 10 then none else Option.map (λ t. c ∷ t) rest

not_empty : Option Bytes → Option Bytes
not_empty (some (c ∷ s)) = some (c ∷ s)
not_empty _ = none

-- ruleSyntax.FindStringSubmatch: the tool and its spec
pub rule_syntax : List Bytes → Bytes → Option (Bytes × Bytes)
unfolding closed not_empty has_prefix
rule_syntax [] raw = none
rule_syntax (tool ∷ tools) raw =
    let rest = rule_syntax tools raw in
    if has_prefix raw (tool ++ b'(' ∷ [])
    then Option.map (λ spec. (tool, spec)) (not_empty (closed (drop (length tool + 1) raw)))
    else rest

abbrev pub rule_tools : List Bytes
rule_tools = codes "bash" ∷ codes "read" ∷ codes "write" ∷ codes "edit" ∷ []

-- `doublestar.ValidatePattern` is third-party code.
module _ (validate_pattern : Bytes → Bool) where
  unfoldable pub parse_rule : Bytes → Bytes → Result Rule
  parse_rule raw source =
      if has_prefix raw (codes "mcp__")
      then ok (record { tool = []; spec = raw; raw = raw })
      else elim (rule_syntax rule_tools raw) [
        | none ↦ err (bad_rule source raw)
        | some (tool, spec) ↦
            if not (bytes_eq tool (codes "bash")) && not (validate_pattern spec)
            then err (bad_glob source raw)
            else ok (record { tool = tool; spec = spec; raw = raw })
      ]

  unfoldable pub parse_rules : List Bytes → Bytes → Result (List Rule)
  unfolding parse_rule
  parse_rules [] source = ok []
  parse_rules (raw ∷ raws) source = do
    r ← parse_rule raw source
    rs ← parse_rules raws source
    ok (r ∷ rs)

-- A compiled denyPattern is what `MatchString` answers on a command.
pub record Policy : Type 0 where
  pub mode : Mode
  pub flag_allow : List Rule
  pub flag_deny : List Rule
  pub allow : List Rule
  pub deny : List Rule
  pub deny_patterns : List (Bytes → Bool)

pub record PolicyConfig : Type 0 where
  pub mode : Bytes
  pub allow : List Bytes
  pub deny : List Bytes
  pub deny_patterns : List Bytes
  pub flag_allow : List Bytes
  pub flag_deny : List Bytes

or_error {ℓ} : {A : Type ℓ} → Option A → ParseError → Result A
or_error none e = err e
or_error (some a) e = ok a

-- regexp.Compile of each pattern
compile_all : (Bytes → Option (Bytes → Bool)) → List Bytes → Result (List (Bytes → Bool))
unfolding or_error
compile_all compile [] = ok []
compile_all compile (pat ∷ pats) = do
  re ← or_error (compile pat) (bad_regex pat)
  res ← compile_all compile pats
  ok (re ∷ res)

unfoldable pub new_policy :
    (Bytes → Bool) → (Bytes → Option (Bytes → Bool)) → PolicyConfig → Result Policy
unfolding or_error compile_all parse_rules parse_mode
new_policy validate_pattern compile c = do
  mode ← or_error (parse_mode c.mode) (unknown_mode c.mode)
  allow ← parse_rules validate_pattern c.allow (codes "settings allow")
  deny ← parse_rules validate_pattern c.deny (codes "settings deny")
  flag_allow ← parse_rules validate_pattern c.flag_allow (codes "--allow")
  flag_deny ← parse_rules validate_pattern c.flag_deny (codes "--deny")
  deny_patterns ← compile_all compile c.deny_patterns
  ok (record {
    mode = mode;
    flag_allow = flag_allow;
    flag_deny = flag_deny;
    allow = allow;
    deny = deny;
    deny_patterns = deny_patterns;
  })
