-- ===== src/Store/Threads.antt =====
-- server/src/store/memoryStore.ts, class MemoryStore: threads and their notices.
-- New ids and the time are given to an operation; the configuration of a default space is a parameter.
use run_forge.Base.{
  ◌+◌, String, str_eq, Bool, true, false, not, ◌&&◌, Option, none, some, List, [], ◌∷◌, ◌++◌,
  if◌then◌else◌, on_some, truthy, contains, filter, find_row, set_row, remove_rows, ids_where,
  any_row, trim, ok, err, require_that, ◌>>◌, Fields, object, no_fields,
}
use run_forge.Spaces.Input.{web}
use run_forge.Spaces.Rows.{TenantRow, TenantStatus}
use run_forge.Spaces.Access.{is_web}
use run_forge.Store.Rows.{
  Scope, ThreadRow, SourceType, is_terminal_run_status, ThreadNoticeRow, failed, delete_conflict,
}
use run_forge.Store.Shells.{ShellSessionRow, ShellCommandStatus, queued, running}
use run_forge.Store.State.{MemoryStore, StoredSpace, owned_thread, put_thread, can_write}
use run_forge.Store.Runs.{R, or_value}

module _ (default_memory_space_config : Fields) where
  abbrev default_space : Scope → (space_id now : String) → StoredSpace
  default_space scope space_id now = record {
    id = space_id;
    tenant_id = scope.tenant_id;
    mode = web;
    name = "Default";
    execution_user_id = none;
    config = default_memory_space_config;
    config_version = 1;
    created_by_user_id = none;
    created_at = now;
    updated_at = now;
  }

  abbrev with_default : Scope → (space_id now : String) → Option TenantRow → TenantRow
  with_default scope space_id now none = record {
    id = scope.tenant_id;
    name = scope.tenant_id;
    status = TenantStatus.active;
    is_bootstrap = false;
    default_space_id = some space_id;
    created_at = now;
  }
  with_default scope space_id now (some tenant) = record tenant { default_space_id = some space_id }

  abbrev pub existing_default : MemoryStore → Option TenantRow → Option StoredSpace
  existing_default s none = none
  existing_default s (some tenant) =
      if truthy tenant.default_space_id
      then find_row (or_value tenant.default_space_id "") s.spaces
      else none

  abbrev pub make_default_space :
      MemoryStore → Scope → (space_id now : String) → MemoryStore × StoredSpace
  make_default_space s scope space_id now =
      let space = default_space scope space_id now in
      let tenant = with_default scope space_id now (find_row scope.tenant_id s.tenants) in
      (
        record s {
          tenants = set_row scope.tenant_id tenant s.tenants;
          spaces = set_row space_id space s.spaces;
          space_visible_users = set_row space_id [] s.space_visible_users;
        },
        space,
      )

  -- `ensureDefaultSpaceForTests`
  unfoldable pub ensure_default_space_for_tests :
      MemoryStore → Scope → (space_id now : String) → MemoryStore × StoredSpace
  ensure_default_space_for_tests s scope space_id now =
      on_some (existing_default s (find_row scope.tenant_id s.tenants))
        (make_default_space s scope space_id now) λ existing. (s, existing)

  abbrev new_thread : Scope → (id now : String) → Option String → StoredSpace → ThreadRow
  new_thread scope id now title space = record {
    id = id;
    tenant_id = scope.tenant_id;
    user_id = some scope.user_id;
    space_id = space.id;
    source_type = SourceType.web;
    source_caller_id = none;
    source_ref = object no_fields;
    title = title;
    fallback_title = none;
    active_run_id = none;
    executing_run_id = none;
    pinned_at = none;
    archived_at = none;
    created_at = now;
    updated_at = now;
  }

  abbrev pub takes_threads : Scope → StoredSpace → Bool
  takes_threads scope space = str_eq space.tenant_id scope.tenant_id && is_web space.mode

  abbrev pub create_thread_in :
      MemoryStore
      → Scope
      → (id now : String) → Option String
      → Option StoredSpace
      → MemoryStore × R ThreadRow
  create_thread_in s scope id now title none = (s, err (failed "space"))
  create_thread_in s scope id now title (some space) =
      if not (takes_threads scope space)
      then (s, err (failed "space"))
      else if not (can_write s scope space.id)
      then (s, err (failed "space not writable"))
      else let thread = new_thread scope id now title space in (put_thread thread id s, ok thread)

  -- `createThread`: a default space that it makes is kept when it throws.
  unfoldable pub create_thread :
      MemoryStore
      → Scope
      → (id new_space_id now : String) → Option String
      → Option String
      → MemoryStore × R ThreadRow
  unfolding ensure_default_space_for_tests can_write put_thread
  create_thread s scope id new_space_id now title space_id =
      if truthy space_id
      then create_thread_in s scope id now title (find_row (or_value space_id "") s.spaces)
      else let (ensured, space) = ensure_default_space_for_tests s scope new_space_id now in
        create_thread_in ensured scope id now title (some space)

-- `setThreadTitleIfEmpty`; `none` when the thread keeps its title.
unfoldable pub set_thread_title_if_empty :
    MemoryStore → Scope → (id now title : String) → MemoryStore × Option ThreadRow
unfolding owned_thread put_thread
set_thread_title_if_empty s scope id now title =
    on_some (owned_thread s scope id) ((s, none)) λ thread.
      if not (str_eq (trim (or_value thread.title "")) "")
      then (s, none)
      else let next = record thread { title = some title; updated_at = now } in
        (put_thread next id s, some next)

unfoldable pub is_active_command : ShellCommandStatus → Bool
is_active_command status = elim status [ queued ↦ true | running ↦ true | _ ↦ false ]

abbrev pub session_in : List String → Option ShellSessionRow → Bool
session_in thread_ids none = false
session_in thread_ids (some session) = contains thread_ids session.thread_id

-- `hasActiveShellCommand`
unfoldable pub has_active_shell_command : MemoryStore → List String → Bool
unfolding is_active_command find_row
has_active_shell_command s thread_ids =
    any_row
      (λ command.
        is_active_command command.status
        && session_in thread_ids (find_row command.session_id s.shell_sessions))
      s.shell_commands

-- The rows that stand under a thread.
unfoldable pub run_ids_of : MemoryStore → String → List String
run_ids_of s id = ids_where (λ run. str_eq run.thread_id id) s.runs

unfoldable session_ids_of : MemoryStore → String → List String
session_ids_of s id = ids_where (λ session. str_eq session.thread_id id) s.shell_sessions

unfoldable command_ids_of : MemoryStore → String → List String
unfolding session_ids_of
command_ids_of s id =
    ids_where (λ command. contains (session_ids_of s id) command.session_id) s.shell_commands

-- `purgeThread`
unfoldable pub purge_thread : String → MemoryStore → MemoryStore
unfolding run_ids_of session_ids_of command_ids_of
purge_thread id s = record s {
  threads = remove_rows (id ∷ []) s.threads;
  runs = remove_rows (run_ids_of s id) s.runs;
  subagent_runs =
      remove_rows (ids_where (λ row. contains (run_ids_of s id) row.parent_run_id) s.subagent_runs)
        s.subagent_runs;
  shell_sessions = remove_rows (session_ids_of s id) s.shell_sessions;
  shell_commands = remove_rows (command_ids_of s id) s.shell_commands;
  shell_logs = remove_rows (command_ids_of s id) s.shell_logs;
  steps = filter (λ step. not (contains (run_ids_of s id) step.run_id)) s.steps;
  messages = filter (λ message. not (str_eq message.thread_id id)) s.messages;
  thread_notices = remove_rows (id ∷ []) s.thread_notices;
}

unfoldable pub has_active_run : MemoryStore → String → Bool
has_active_run s id =
    any_row (λ run. str_eq run.thread_id id && not (is_terminal_run_status run.status)) s.runs

-- `deleteThread`: whether a thread of the user is deleted.
unfoldable pub delete_thread : MemoryStore → Scope → String → R (MemoryStore × Bool)
unfolding owned_thread has_active_run has_active_shell_command purge_thread
delete_thread s scope id = on_some (owned_thread s scope id) (ok (s, false)) λ thread. do
  require_that (truthy thread.archived_at) (delete_conflict "THREAD_NOT_ARCHIVED")
  require_that (not (has_active_run s id)) (delete_conflict "THREAD_HAS_ACTIVE_RUN")
  require_that (not (has_active_shell_command s (id ∷ [])))
      (delete_conflict "THREAD_HAS_ACTIVE_SHELL")
  ok (purge_thread id s, true)

abbrev notices_of : MemoryStore → String → List ThreadNoticeRow
notices_of s id = or_value (find_row id s.thread_notices) []

-- `listThreadNotices`
unfoldable list_thread_notices : MemoryStore → Scope → String → List ThreadNoticeRow
unfolding owned_thread
list_thread_notices s scope id = on_some (owned_thread s scope id) [] λ _. notices_of s id

pub record NoticeInput : Type 0 where
  pub thread_id : String
  pub kind : Option String
  pub message : String
  pub title : Option String
  pub linked_thread_id : Option String
  pub linked_run_id : Option String

-- `addThreadNotice`
unfoldable pub add_thread_notice :
    MemoryStore → Scope → (now : String) → NoticeInput → R (MemoryStore × ThreadNoticeRow)
unfolding owned_thread
add_thread_notice s scope now input =
    on_some (owned_thread s scope input.thread_id) (err (failed "threadId")) λ _.
      let row : ThreadNoticeRow = record {
        id = s.seq;
        thread_id = input.thread_id;
        kind = or_value input.kind "info";
        message = input.message;
        title = input.title;
        linked_thread_id = input.linked_thread_id;
        linked_run_id = input.linked_run_id;
        created_at = now;
      } in
      ok (
        record s {
          seq = s.seq + 1;
          thread_notices =
              set_row input.thread_id (notices_of s input.thread_id ++ row ∷ []) s.thread_notices;
        },
        row,
      )
