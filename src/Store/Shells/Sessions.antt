-- ===== src/Store/Shells/Sessions.antt =====
-- server/src/store/memoryStore.ts, class MemoryStore: shell sessions.
use run_forge.Base.{String, Option, none, on_some, find_row, set_row, ok, err, Value, null}
use run_forge.Store.Rows.{Scope, failed}
use run_forge.Store.Shells.{ShellActor, ShellSessionStatus, idle, ShellSessionRow}
use run_forge.Store.State.{MemoryStore, owned_thread, owned_session}
use run_forge.Store.Runs.{R, or_value}

pub record ShellSessionInput : Type 0 where
  pub thread_id : String
  pub name : String
  pub owner : ShellActor
  pub workspace_root : String
  pub cwd : Option String
  pub backend : String
  pub config_snapshot : Option Value

abbrev new_session : Scope → (id now : String) → ShellSessionInput → ShellSessionRow
new_session scope id now input = record {
  id = id;
  tenant_id = scope.tenant_id;
  thread_id = input.thread_id;
  name = input.name;
  owner = input.owner;
  workspace_root = input.workspace_root;
  cwd = or_value input.cwd input.workspace_root;
  backend = input.backend;
  status = idle;
  lease_actor = none;
  lease_run_id = none;
  config_snapshot = or_value input.config_snapshot null;
  deleted_at = none;
  created_at = now;
  updated_at = now;
}

unfoldable create_shell_session :
    MemoryStore → Scope → (id now : String) → ShellSessionInput → R (MemoryStore × ShellSessionRow)
unfolding owned_thread
create_shell_session s scope id now input =
    on_some (owned_thread s scope input.thread_id) (err (failed "threadId")) λ _.
      let session = new_session scope id now input in
      ok (record s { shell_sessions = set_row id session s.shell_sessions }, session)

-- `getShellSession` is `owned_session`. The fields that an update gives: `none` for one it does not.
pub record ShellSessionFields : Type 0 where
  pub name : Option String
  pub status : Option ShellSessionStatus
  pub lease_actor : Option (Option ShellActor)
  pub lease_run_id : Option (Option String)
  pub cwd : Option String
  pub config_snapshot : Option Value
  pub deleted_at : Option (Option String)

abbrev assign_session : ShellSessionFields → String → ShellSessionRow → ShellSessionRow
assign_session fields now session = record session {
  name = or_value fields.name session.name;
  status = or_value fields.status session.status;
  lease_actor = or_value fields.lease_actor session.lease_actor;
  lease_run_id = or_value fields.lease_run_id session.lease_run_id;
  cwd = or_value fields.cwd session.cwd;
  config_snapshot = or_value fields.config_snapshot session.config_snapshot;
  deleted_at = or_value fields.deleted_at session.deleted_at;
  updated_at = now;
}

abbrev pub put_session : String → ShellSessionRow → MemoryStore → MemoryStore
put_session id session s = record s { shell_sessions = set_row id session s.shell_sessions }

unfoldable update_shell_session :
    MemoryStore → Scope → (id now : String) → ShellSessionFields → MemoryStore
unfolding owned_session
update_shell_session s scope id now fields =
    on_some (owned_session s scope id) s
      λ session. put_session id (assign_session fields now session) s

unfoldable update_shell_session_unscoped :
    MemoryStore → (id now : String) → ShellSessionFields → MemoryStore
update_shell_session_unscoped s id now fields =
    on_some (find_row id s.shell_sessions) s
      λ session. put_session id (assign_session fields now session) s
