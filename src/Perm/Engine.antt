-- ===== src/Perm/Engine.antt =====
-- internal/perm/engine.go, the decision pipeline for one tool call.
mod Safety
mod Grants
mod Samples
use mixi.Base.{
  Bool, true, false, not, ◌&&◌, ◌||◌, Option, none, some, List, [], ◌∷◌, map, if◌then◌else◌,
}
use mixi.Base.Bytes.{Bytes, codes, bytes_eq}
use mixi.Perm.Paths.{clean, join_path, is_abs, dir, base, rel}
use mixi.Perm.Rule.{
  Mode, plan, prompt, auto_edit, yolo, Category, read, write, execute, mcp, category_of, one_of,
  CallInfo, Rule, path_glob_match, matches, first_match,
}
use mixi.Perm.Policy.{Policy}
use mixi.Perm.Call.{ToolCall, describe_call, matches_secret_glob, outside_cwd?}
use mixi.Perm.Grant.{add_grant, generalize}

-- Why a call must be approved, and why it is denied: one constructor for each message.
pub data Why : Type 0 where
  outside_cwd : Bytes → Bytes → Why
  may_contain_secrets : Why
  requires_approval : Bytes → Mode → Why

pub data Reason : Type 0 where
  blocked_by_flag_deny blocked_by_deny : Rule → Reason
  dangerous_pattern : Reason
  not_allowed_in_mode : Category → Mode → Reason
  approval_failed : Reason
  not_granted : Why → Reason

-- `Sandbox` is always nil
pub data Result : Type 0 where
  allowed : Result
  denied : Reason → Result

pub data AskDecision : Type 0 where
  ask_deny ask_allow ask_always : AskDecision

-- What the engine finds outside its package: the third-party glob, symlinks on disk, and the
-- asker, which answers a request or fails (`none`). The preview that a request carries is left out.
pub record World : Type 0 where
  pub glob : Bytes → Bytes → Bool
  pub eval_symlinks : Bytes → Option Bytes
  pub ask : ToolCall → Why → Option AskDecision

pub record Engine : Type 0 where
  pub policy : Policy
  pub cwd : Bytes
  pub grants : List Rule

is_some : {A : Type 0} → Option A → Bool
is_some none = false
is_some (some a) = true

abbrev is_yolo : Mode → Bool
is_yolo yolo = true
is_yolo _ = false

abbrev is_write : Category → Bool
is_write write = true
is_write _ = false

pub any_pattern : List (Bytes → Bool) → Bytes → Bool
any_pattern [] command = false
any_pattern (re ∷ res) command = re command || any_pattern res command

pub is_dangerous : Engine → CallInfo → Bool
unfolding bytes_eq any_pattern
is_dangerous e info =
    bytes_eq info.tool (codes "bash") && any_pattern e.policy.deny_patterns info.command

pub is_secret_read : World → Engine → CallInfo → Bool
unfolding one_of bytes_eq matches_secret_glob
is_secret_read w e info =
    one_of info.tool (codes "read" ∷ codes "grep" ∷ [])
    && not (bytes_eq info.path [])
    && matches_secret_glob w.glob info.path e.cwd

-- the `switch` of the baseline screens
pub forced_ask : World → Engine → CallInfo → Option Why
forced_ask w e info =
    if is_write info.category
      && not (bytes_eq info.path [])
      && outside_cwd? w.eval_symlinks info.path e.cwd
    then some (outside_cwd info.tool e.cwd)
    else if is_secret_read w e info
    then some may_contain_secrets
    else none

pub data Decision : Type 0 where
  dec_ask dec_allow dec_deny : Decision

-- defaultFor: the matrix of mode and category
pub default_for : Mode → Category → Decision
default_for yolo c = dec_allow
default_for auto_edit read = dec_allow
default_for auto_edit write = dec_allow
default_for auto_edit _ = dec_ask
default_for plan read = dec_allow
default_for plan _ = dec_deny
default_for prompt read = dec_allow
default_for prompt _ = dec_ask

pub ask : World → Engine → ToolCall → CallInfo → Why → Result × Engine
unfolding generalize add_grant
ask w e call info why = elim (w.ask call why) [
  | none ↦ (denied approval_failed, e)
  | some ask_always ↦ (allowed, record e { grants = add_grant e.grants (generalize info) })
  | some ask_allow ↦ (allowed, e)
  | some ask_deny ↦ (denied (not_granted why), e)
]

by_default : World → Engine → ToolCall → CallInfo → Decision → Result × Engine
unfolding ask
by_default w e call info dec_allow = (allowed, e)
by_default w e call info dec_deny = (denied (not_allowed_in_mode info.category e.policy.mode), e)
by_default w e call info dec_ask = ask w e call info (requires_approval info.tool e.policy.mode)

-- from `if forcedAsk == ""` on
settle : World → Engine → ToolCall → CallInfo → Option Why → Result × Engine
unfolding first_match is_some default_for by_default
settle w e call info (some why) = ask w e call info why
settle w e call info none =
    if is_some (first_match w.glob e.policy.allow info)
      || is_some (first_match w.glob e.grants info)
    then (allowed, e)
    else by_default w e call info (default_for e.policy.mode info.category)

screen : World → Engine → ToolCall → CallInfo → Result × Engine
screen w e call info =
    if is_yolo e.policy.mode
    then settle w e call info none
    else if is_dangerous e info
    then (denied dangerous_pattern, e)
    else settle w e call info (forced_ask w e info)

by_deny_rule : Option Rule → Engine → Result × Engine → Result × Engine
by_deny_rule (some r) e rest = (denied (blocked_by_deny r), e)
by_deny_rule none e rest = rest

by_flags : Option Rule → Option Rule → Engine → Result × Engine → Result × Engine
by_flags (some r) allow e rest = (denied (blocked_by_flag_deny r), e)
by_flags none (some r) e rest = (allowed, e)
by_flags none none e rest = rest

-- Engine.Decide on the described call
pub decide_call : World → Engine → ToolCall → CallInfo → Result × Engine
unfolding by_flags by_deny_rule
decide_call w e call info =
    let screened = screen w e call info in
    let denied_or = by_deny_rule (first_match w.glob e.policy.deny info) e screened in
    by_flags (first_match w.glob e.policy.flag_deny info)
      (first_match w.glob e.policy.flag_allow info) e denied_or

pub decide : World → Engine → ToolCall → Result × Engine
unfolding describe_call decide_call
decide w e call = decide_call w e call (describe_call call e.cwd)

-- Engine.SetMode
pub set_mode : Mode → Engine → Engine
set_mode m e = record e { policy = record e.policy { mode = m } }

-- Engine.Grants
pub list_grants : Engine → List Bytes
list_grants e = map (λ (r : Rule). r.raw) e.grants
