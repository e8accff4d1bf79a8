-- ===== src/Store/Shells.antt =====
-- server/src/store/types.ts: the rows of shell sessions and commands.
pub mod Sessions
pub mod Commands
pub mod Logs
pub mod Paging
pub mod Active
pub mod Single
use run_forge.Base.{ℕ, String, Option, Value}

pub data ShellActor : Type 0 where
  agent user system : ShellActor

pub data ShellSessionStatus : Type 0 where
  opening idle busy closing closed orphaned : ShellSessionStatus

pub data ShellCommandStatus : Type 0 where
  queued running succeeded failed killed timed_out orphaned : ShellCommandStatus

pub data ShellCommandWaitMode : Type 0 where
  foreground background : ShellCommandWaitMode

pub data ShellLogStream : Type 0 where
  stdout stderr system : ShellLogStream

pub record ShellSessionRow : Type 0 where
  pub id : String
  pub tenant_id : String
  pub thread_id : String
  pub name : String
  pub owner : ShellActor
  pub workspace_root : String
  pub cwd : String
  pub backend : String
  pub status : ShellSessionStatus
  pub lease_actor : Option ShellActor
  pub lease_run_id : Option String
  pub config_snapshot : Value
  pub deleted_at : Option String
  pub created_at : String
  pub updated_at : String

pub record ShellCommandRow : Type 0 where
  pub id : String
  pub session_id : String
  pub run_id : Option String
  pub step_id : Option String
  pub actor : ShellActor
  pub command : String
  pub cwd : String
  pub wait_mode : ShellCommandWaitMode
  pub status : ShellCommandStatus
  pub attention : Option String
  pub host_pid : Option ℕ
  pub child_pid : Option ℕ
  pub exit_code : Value
  pub signal : Option String
  pub soft_timeout_ms : Option ℕ
  pub hard_timeout_ms : Option ℕ
  pub soft_timeout_at : Option String
  pub hard_timeout_at : Option String
  pub last_output_at : Option String
  pub output_bytes : ℕ
  pub error : Option String
  pub started_at : String
  pub ended_at : Option String
  pub updated_at : String

pub record ShellCommandLogRow : Type 0 where
  pub id : ℕ
  pub command_id : String
  pub seq : ℕ
  pub stream : ShellLogStream
  pub chunk : String
  pub created_at : String
