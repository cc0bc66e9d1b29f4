-- ===== src/Perm/Grant.antt =====
-- internal/perm/grants.go: session grants, and the rule that an approval leaves behind.
use mixi.Base.{ℕ, Bool, false, not, ◌&&◌, ◌||◌, List, [], ◌∷◌, ◌++◌, leb, ◌==◌, if◌then◌else◌}
use mixi.Base.Bytes.{Bytes, codes, bytes_eq}
use mixi.Perm.Paths.{dir}
use mixi.Perm.Rule.{Category, mcp, CallInfo, Rule}

-- grantStore.add
unfoldable pub has_raw : List Rule → Bytes → Bool
unfolding bytes_eq
has_raw [] raw = false
has_raw (have ∷ rules) raw = bytes_eq have.raw raw || has_raw rules raw

unfoldable pub add_grant : List Rule → Rule → List Rule
unfolding has_raw
add_grant rules r = if has_raw rules r.raw then rules else rules ++ r ∷ []

-- strings.Fields on ASCII space: `word` is the field being read
is_space : ℕ → Bool
is_space c = c == 32 || leb 9 c && leb c 13

flush : Bytes → List Bytes → List Bytes
flush [] fields = fields
flush (c ∷ word) fields = (c ∷ word) ∷ fields

unfoldable pub fields_from : Bytes → Bytes → List Bytes
unfolding is_space flush
fields_from word [] = flush word []
fields_from word (c ∷ s) =
    let skip = flush word (fields_from [] s) in
    let keep = fields_from (word ++ c ∷ []) s in if is_space c then skip else keep

abbrev space : ℕ
space = 32

-- the prefix that a bash grant keeps
unfoldable pub bash_prefix : Bytes → List Bytes → Bytes
bash_prefix command [] = command
bash_prefix command (a ∷ []) = a
bash_prefix command (a ∷ b ∷ fields) = a ++ (space ∷ b)

wrap : Bytes → Bytes → Bytes
wrap tool spec = tool ++ (b'(' ∷ (spec ++ b')' ∷ []))

if_mcp : Category → Rule → Rule → Rule
if_mcp mcp r s = r
if_mcp _ r s = s

unfoldable pub generalize : CallInfo → Rule
unfolding wrap if_mcp
generalize c =
    if bytes_eq c.tool (codes "bash")
    then (let spec = bash_prefix c.command (fields_from [] c.command) ++ b'*' ∷ [] in
        record { tool = codes "bash"; spec = spec; raw = wrap (codes "bash") spec })
    else if not (bytes_eq c.path [])
    then (let spec = dir c.path ++ codes "/**" in
        record { tool = c.tool; spec = spec; raw = wrap c.tool spec })
    else if_mcp c.category (record { tool = []; spec = c.tool; raw = c.tool })
        (record { tool = c.tool; spec = []; raw = c.tool })
