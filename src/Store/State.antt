-- ===== src/Store/State.antt =====
-- server/src/store/memoryStore.ts, class MemoryStore: its state, and who owns a row.
-- A Map is a `Table`, and an operation returns the state that it leaves. A thread or a run that is
-- changed through a reference is changed in its table.
use run_forge.Base.{
  ℕ, String, str_eq, Bool, true, ◌&&◌, ◌||◌, Option, none, some, List, [], if◌then◌else◌, contains,
  Table, find_row, set_row, Fields,
}
use run_forge.Spaces.Input.{SpaceMode}
use run_forge.Spaces.Rows.{TenantRow, UserRow}
use run_forge.Spaces.Access.{opt_eq, is_manager, is_active}
use run_forge.Store.Rows.{
  Scope, ThreadRow, RunRow, StepRow, StoredMessage, ThreadNoticeRow, SubagentRunRow,
}
use run_forge.Store.Shells.{ShellSessionRow, ShellCommandRow, ShellCommandLogRow}

-- A space's row, without the users of its visibility list.
pub record StoredSpace : Type 0 where
  pub id : String
  pub tenant_id : String
  pub mode : SpaceMode
  pub name : String
  pub execution_user_id : Option String
  pub config : Fields
  pub config_version : ℕ
  pub created_by_user_id : Option String
  pub created_at : String
  pub updated_at : String

pub data TokenKind : Type 0 where
  refresh api : TokenKind

pub record AuthTokenRow : Type 0 where
  pub id : String
  pub tenant_id : String
  pub user_id : String
  pub kind : TokenKind
  pub token_hash : String
  pub label : Option String
  pub created_at : String
  pub expires_at : Option String
  pub revoked_at : Option String

pub record PushSubscriptionRow : Type 0 where
  pub endpoint : String
  pub tenant_id : String
  pub user_id : Option String
  pub p256dh : String
  pub auth : String
  pub expiration_time : Option String
  pub user_agent : Option String
  pub enabled : Bool
  pub last_error : Option String
  pub created_at : String
  pub updated_at : String

pub record MemoryStore : Type 0 where
  pub threads : Table ThreadRow
  pub runs : Table RunRow
  pub steps : List StepRow
  pub messages : List StoredMessage
  pub shell_sessions : Table ShellSessionRow
  pub shell_commands : Table ShellCommandRow
  pub shell_logs : Table (List ShellCommandLogRow)
  pub subagent_runs : Table SubagentRunRow
  pub thread_notices : Table (List ThreadNoticeRow)
  pub push_subscriptions : Table PushSubscriptionRow
  pub tenants : Table TenantRow
  pub spaces : Table StoredSpace
  pub space_visible_users : Table (List String)
  pub users : Table UserRow
  pub auth_tokens : Table AuthTokenRow
  pub seq : ℕ
  pub shell_log_seq : ℕ

abbrev pub empty_store : MemoryStore
empty_store = record {
  threads = [];
  runs = [];
  steps = [];
  messages = [];
  shell_sessions = [];
  shell_commands = [];
  shell_logs = [];
  subagent_runs = [];
  thread_notices = [];
  push_subscriptions = [];
  tenants = [];
  spaces = [];
  space_visible_users = [];
  users = [];
  auth_tokens = [];
  seq = 0;
  shell_log_seq = 0;
}

unfoldable pub owns_thread : Scope → ThreadRow → Bool
owns_thread scope thread =
    str_eq thread.tenant_id scope.tenant_id && opt_eq thread.user_id scope.user_id

-- `threadOwnedBy(this.threads.get(id), scope)`, with the thread.
unfoldable pub owned_thread : MemoryStore → Scope → String → Option ThreadRow
unfolding owns_thread
owned_thread s scope id = elim (find_row id s.threads) [
  | none ↦ none
  | some thread ↦ if owns_thread scope thread then some thread else none
]

-- `runOwnedBy`, with the run and its thread.
unfoldable pub owned_run : MemoryStore → Scope → String → Option (RunRow × ThreadRow)
unfolding owned_thread
owned_run s scope id = elim (find_row id s.runs) [
  | none ↦ none
  | some run ↦ elim (owned_thread s scope run.thread_id) [
    | none ↦ none
    | some thread ↦ some (run, thread)
  ]
]

unfoldable pub owned_session : MemoryStore → Scope → String → Option ShellSessionRow
unfolding owned_thread
owned_session s scope id = elim (find_row id s.shell_sessions) [
  | none ↦ none
  | some session ↦ elim (owned_thread s scope session.thread_id) [
    | none ↦ none
    | some _ ↦ some session
  ]
]

unfoldable pub owned_command : MemoryStore → Scope → String → Option ShellCommandRow
unfolding owned_session
owned_command s scope id = elim (find_row id s.shell_commands) [
  | none ↦ none
  | some command ↦ elim (owned_session s scope command.session_id) [
    | none ↦ none
    | some _ ↦ some command
  ]
]

unfoldable owned_subagent_run : MemoryStore → Scope → String → Option SubagentRunRow
unfolding owned_run
owned_subagent_run s scope id = elim (find_row id s.subagent_runs) [
  | none ↦ none
  | some row ↦ elim (owned_run s scope row.parent_run_id) [ none ↦ none | some _ ↦ some row ]
]

unfoldable pub put_thread : ThreadRow → String → MemoryStore → MemoryStore
put_thread thread id s = record s { threads = set_row id thread s.threads }

unfoldable pub put_run : RunRow → String → MemoryStore → MemoryStore
put_run run id s = record s { runs = set_row id run s.runs }

-- The visibility list of a space.
abbrev pub visible_users : MemoryStore → String → List String
visible_users s space_id = elim (find_row space_id s.space_visible_users) [
  | none ↦ []
  | some ids ↦ ids
]

abbrev may_write : MemoryStore → String → Option UserRow → Bool
may_write s space_id none = true
may_write s space_id (some user) =
    is_active user.status && (is_manager user.role || contains (visible_users s space_id) user.id)

-- A user that the store knows may write in a space as a manager or as one of its users.
unfoldable pub can_write : MemoryStore → Scope → String → Bool
can_write s scope space_id = may_write s space_id (find_row scope.user_id s.users)
