-- ===== src/Store/Shells/Commands.antt =====
-- server/src/store/memoryStore.ts, class MemoryStore: shell commands.
use run_forge.Base.{
  ℕ, String, str_eq, Bool, true, false, not, ◌&&◌, ◌||◌, Option, none, some, List, [], ◌∷◌,
  if◌then◌else◌, on_some, contains, filter, find_row, set_row, keys, rows, any_row, ok, err, Value,
  null,
}
use run_forge.Spaces.Access.{opt_eq}
use run_forge.Store.Rows.{Scope, failed}
use run_forge.Store.Shells.{
  ShellActor, ShellSessionStatus, ShellCommandStatus, queued, running, killed, ShellCommandWaitMode,
  ShellSessionRow, ShellCommandRow,
}
use run_forge.Store.State.{MemoryStore, owned_run, owned_session, owned_command}
use run_forge.Store.Runs.{R, or_value}
use run_forge.Store.Threads.{is_active_command}
use run_forge.Store.Shells.Sessions.{put_session}

pub record ShellCommandInput : Type 0 where
  pub session_id : String
  pub run_id : Option String
  pub step_id : Option String
  pub actor : ShellActor
  pub command : String
  pub cwd : String
  pub wait_mode : ShellCommandWaitMode
  pub soft_timeout_ms : Option ℕ
  pub hard_timeout_ms : Option ℕ
  pub soft_timeout_at : Option String
  pub hard_timeout_at : Option String

abbrev pub new_command : (id now : String) → ShellCommandInput → ShellCommandRow
new_command id now input = record {
  id = id;
  session_id = input.session_id;
  run_id = input.run_id;
  step_id = input.step_id;
  actor = input.actor;
  command = input.command;
  cwd = input.cwd;
  wait_mode = input.wait_mode;
  status = queued;
  attention = none;
  host_pid = none;
  child_pid = none;
  exit_code = null;
  signal = none;
  soft_timeout_ms = input.soft_timeout_ms;
  hard_timeout_ms = input.hard_timeout_ms;
  soft_timeout_at = input.soft_timeout_at;
  hard_timeout_at = input.hard_timeout_at;
  last_output_at = none;
  output_bytes = 0;
  error = none;
  started_at = now;
  ended_at = none;
  updated_at = now;
}

abbrev put_command : String → ShellCommandRow → MemoryStore → MemoryStore
put_command id command s = record s { shell_commands = set_row id command s.shell_commands }

-- `alreadyRunning`
unfoldable pub is_busy : MemoryStore → String → Bool
unfolding is_active_command
is_busy s session_id =
    any_row (λ command. str_eq command.session_id session_id && is_active_command command.status)
      s.shell_commands

unfoldable pub create_shell_command :
    MemoryStore → Scope → (id now : String) → ShellCommandInput → R (MemoryStore × ShellCommandRow)
unfolding owned_session is_busy
create_shell_command s scope id now input =
    on_some (owned_session s scope input.session_id) (err (failed "sessionId")) λ _.
      if is_busy s input.session_id
      then err (failed "busy")
      else let command = new_command id now input in ok (put_command id command s, command)

-- `listRunningShellCommandsByRun`
unfoldable list_running_shell_commands_by_run : MemoryStore → Scope → String → List ShellCommandRow
unfolding owned_run
list_running_shell_commands_by_run s scope run_id = on_some (owned_run s scope run_id) [] λ _.
    filter
      (λ command.
        opt_eq command.run_id run_id && (elim command.status [ running ↦ true | _ ↦ false ]))
      (rows s.shell_commands)

unfoldable list_running_shell_commands_unscoped : MemoryStore → List ShellCommandRow
unfolding is_active_command
list_running_shell_commands_unscoped s =
    filter (λ command. is_active_command command.status) (rows s.shell_commands)

-- `getShellCommand` is `owned_command`. The fields that an update gives: `none` for one it does not.
pub record ShellCommandFields : Type 0 where
  pub status : Option ShellCommandStatus
  pub attention : Option (Option String)
  pub host_pid : Option (Option ℕ)
  pub child_pid : Option (Option ℕ)
  pub exit_code : Option Value
  pub signal : Option (Option String)
  pub last_output_at : Option (Option String)
  pub output_bytes : Option ℕ
  pub error : Option (Option String)
  pub ended_at : Option (Option String)

abbrev assign_command : ShellCommandFields → String → ShellCommandRow → ShellCommandRow
assign_command fields now command = record command {
  status = or_value fields.status command.status;
  attention = or_value fields.attention command.attention;
  host_pid = or_value fields.host_pid command.host_pid;
  child_pid = or_value fields.child_pid command.child_pid;
  exit_code = or_value fields.exit_code command.exit_code;
  signal = or_value fields.signal command.signal;
  last_output_at = or_value fields.last_output_at command.last_output_at;
  output_bytes = or_value fields.output_bytes command.output_bytes;
  error = or_value fields.error command.error;
  ended_at = or_value fields.ended_at command.ended_at;
  updated_at = now;
}

unfoldable pub update_shell_command :
    MemoryStore → Scope → (id now : String) → ShellCommandFields → MemoryStore
unfolding owned_command
update_shell_command s scope id now fields =
    on_some (owned_command s scope id) s
      λ command. put_command id (assign_command fields now command) s

unfoldable pub update_shell_command_unscoped :
    MemoryStore → (id now : String) → ShellCommandFields → MemoryStore
update_shell_command_unscoped s id now fields =
    on_some (find_row id s.shell_commands) s
      λ command. put_command id (assign_command fields now command) s

abbrev killed_command : String → ShellCommandRow → ShellCommandRow
killed_command now command = record command {
  status = killed;
  attention = some "resource_deleted";
  signal = some "SIGTERM";
  ended_at = some now;
  updated_at = now;
}

abbrev pub released_session : String → ShellSessionRow → ShellSessionRow
released_session now session = record session {
  status = ShellSessionStatus.idle;
  lease_actor = none;
  lease_run_id = none;
  updated_at = now;
}

-- One round of the loop of `cancelShellCommandsForDeletion`.
unfoldable pub cancel_command : List String → String → String → MemoryStore → MemoryStore
unfolding is_active_command
cancel_command targets now id s = on_some (find_row id s.shell_commands) s λ command.
    on_some (find_row command.session_id s.shell_sessions) s λ session.
      if not (contains targets session.thread_id) || not (is_active_command command.status)
      then s
      else put_session command.session_id (released_session now session)
          (put_command id (killed_command now command) s)

unfoldable pub cancel_commands : List String → String → List String → MemoryStore → MemoryStore
unfolding cancel_command
cancel_commands targets now [] s = s
cancel_commands targets now (id ∷ ids) s =
    cancel_commands targets now ids (cancel_command targets now id s)

unfoldable pub cancel_shell_commands_for_deletion : MemoryStore → List String → String → MemoryStore
unfolding cancel_commands
cancel_shell_commands_for_deletion s thread_ids now =
    cancel_commands thread_ids now (keys s.shell_commands) s
