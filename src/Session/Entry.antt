-- ===== src/Session/Entry.antt =====
-- internal/session/entry.go: the header, and the kinds of entry in a session file.
use mixi.Base.{ℕ, Bool, Option, List}
use mixi.Base.Bytes.{Bytes}
use mixi.Ai.{Message}

pub record Header : Type 0 where
  pub version : ℕ
  pub id : Bytes
  pub timestamp : Bytes
  pub cwd : Bytes
  pub parent_session : Bytes

pub record FileLists : Type 0 where
  pub read_files : List Bytes
  pub modified_files : List Bytes

-- What an entry holds beside its Base; raw JSON is its bytes.
pub data Body : Type 0 where
  message : Message → (pinned : Bool) → Body
  model_change : (provider model_id : Bytes) → Body
  thinking_level_change : (level : Bytes) → Body
  active_tools_change : (names : List Bytes) → Body
  compaction : (summary first_kept_entry_id : Bytes) → (tokens_before : ℕ) → FileLists → Body
  branch_summary : (from_id summary : Bytes) → Option FileLists → Body
  custom : (custom_type content : Bytes) → Body
  custom_message :
      (custom_type content : Bytes) → (display : Bool) → (details : Bytes) → (pinned : Bool) → Body
  label : (target_id name : Bytes) → Body
  session_info : (name : Bytes) → Body
  leaf : (target_id : Bytes) → Body

-- An entry with its Base
pub record Entry : Type 0 where
  pub id : Bytes
  pub parent : Bytes
  pub timestamp : Bytes
  pub body : Body
