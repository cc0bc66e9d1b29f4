-- ===== src/Perm/Engine/Samples.antt =====
-- internal/perm: the engine, the globs and the rules at concrete inputs.
use mixi.Base.{◌≡◌, refl, ◌↔◌, true, false, some, [], ◌∷◌}
use mixi.Base.Bytes.{Bytes, codes}
use mixi.Perm.Glob.{wildcard_match}
use mixi.Perm.Glob.Greedy.{Matches, wildcard_match_iff}
use mixi.Perm.Rule.{plan, prompt, write, execute, CallInfo, Rule, matches}
use mixi.Perm.Engine.{
  not_allowed_in_mode, allowed, denied, ask_always, World, Engine, decide_call, decide, ask,
  is_secret_read, is_dangerous, forced_ask, screen, settle,
}
use mixi.Perm.Call.{ToolCall, object, text, describe_call, outside_cwd?}
use mixi.Perm.Grant.{generalize, bash_prefix, fields_from}
use mixi.Perm.Engine.Safety.{Covered, Authority, decide_call-Authority}

-- No symlinks, a glob that matches nothing, and a user who always says yes for good.
abbrev quiet : World
quiet = record {
  glob = λ pattern path. false;
  eval_symlinks = λ path. some path;
  ask = λ call why. some ask_always;
}

abbrev planning : Engine
planning = record {
  policy = record {
    mode = plan;
    flag_allow = [];
    flag_deny = [];
    allow = [];
    deny = [];
    deny_patterns = [];
  };
  cwd = codes "/home/u";
  grants = [];
}

abbrev bash_call : ToolCall
bash_call = record {
  name = codes "bash";
  args = object ((codes "command", text (codes "go test ./...")) ∷ []);
}

abbrev write_call : Bytes → ToolCall
write_call path = record { name = codes "write"; args = object ((codes "Path", text path) ∷ []) }

abbrev bash_info : CallInfo
bash_info = record {
  tool = codes "bash";
  category = execute;
  command = codes "go test ./...";
  path = [];
  cwd = codes "/home/u";
}

abbrev write_info : Bytes → CallInfo
write_info path = record {
  tool = codes "write";
  category = write;
  command = [];
  path = path;
  cwd = codes "/home/u";
}

describes_bash : describe_call bash_call planning.cwd ≡ bash_info
unfolding describe_call
describes_bash = refl

describes_write :
    describe_call (write_call (codes "../b/./x")) planning.cwd ≡ write_info (codes "/home/b/x")
unfolding describe_call
describes_write = refl

-- The read-only mode refuses a write inside the working directory, and asks about one outside.
plan_inside :
    decide quiet planning (write_call (codes "x"))
    ≡ (denied (not_allowed_in_mode write plan), planning)
unfolding decide screen forced_ask settle outside_cwd? is_secret_read is_dangerous
plan_inside = refl

plan_outside : (decide quiet planning (write_call (codes "/etc/x"))).0 ≡ allowed
unfolding decide screen forced_ask settle outside_cwd? is_secret_read is_dangerous ask
plan_outside = refl

-- Two blanks in a command keep the grant of its approval from covering it.
blanks_lose_grant :
    matches quiet.glob
      (generalize (record bash_info { command = codes "go  test ." }))
      (record bash_info { command = codes "go  test ." })
    ≡ false
unfolding matches generalize wildcard_match fields_from bash_prefix
blanks_lose_grant = refl

abbrev asking : Engine
asking = record planning { policy = record planning.policy { mode = prompt } }

prompt_allows : (decide_call quiet asking bash_call bash_info).0 ≡ allowed
unfolding decide_call screen forced_ask settle outside_cwd? is_secret_read is_dangerous ask
prompt_allows = refl

decide_call-Authority_example :
    (¬ Covered quiet.glob asking.policy.flag_deny bash_info)
    × Authority quiet asking bash_call bash_info
decide_call-Authority_example = decide_call-Authority quiet asking bash_call bash_info prompt_allows

wildcard_match_iff_example :
    (wildcard_match (codes "go test*") (codes "go test ./...") ≡ true)
    ↔ Matches (codes "go test*") (codes "go test ./...")
wildcard_match_iff_example = wildcard_match_iff (codes "go test*") (codes "go test ./...")

abbrev go_rule : Rule
go_rule = record { tool = codes "bash"; spec = codes "go *"; raw = codes "bash(go *)" }

none_cover : (info : CallInfo) → ¬ Covered quiet.glob [] info
unfolding Covered
none_cover info (r, m, q) = elim m [ ]
