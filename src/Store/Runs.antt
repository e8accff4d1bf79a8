-- ===== src/Store/Runs.antt =====
-- server/src/store/memoryStore.ts, class MemoryStore: runs.
-- A new id and the time are given to an operation. An operation that throws changes nothing.
pub mod Status
pub mod Settings
use run_forge.Base.{
  ℕ, ◌+◌, String, str_eq, Bool, true, false, not, ◌&&◌, ◌||◌, Option, none, some, List, [], ◌∷◌,
  ◌++◌, ◌==◌, if◌then◌else◌, on_some, truthy, is_some, contains, any, filter, Table, find_row,
  set_row, rows, keys, Result, ok, err, ◌>>=◌, ◌>>◌, require_that, require_some, Value, undefined,
  null, bool, string, object, Fields, field,
}
use run_forge.Spaces.Input.{SpaceMode}
use run_forge.Spaces.Access.{opt_eq, is_web}
use run_forge.Agent.Compaction.{LlmRole}
use run_forge.Store.Rows.{
  Scope, ThreadRow, RunRow, RunStatus, pending, running, waiting_for_user, canceled,
  is_terminal_run_status, RunRuntimeState, RunMetadata, CreateRunOptions, StoredMessage, StoreError,
  failed, run_active, space_config_changed,
}
use run_forge.Store.State.{
  MemoryStore, StoredSpace, owned_thread, owned_run, put_thread, put_run, can_write,
}

abbrev pub R : Type 0 → Type 0
R A = Result StoreError A

abbrev empty_runtime : RunRuntimeState
empty_runtime = record {
  skill_ids = [];
  mcp_server_ids = [];
  activated_tool_names = [];
  rejected_image_models = [];
  last_applied_external_input_version = 0;
}

abbrev pub or_else {ℓ} : {A : Type ℓ} → Option A → Option A → Option A
or_else none other = other
or_else (some a) other = some a

abbrev pub or_value {ℓ} : {A : Type ℓ} → Option A → A → A
or_value none other = other
or_value (some a) other = a

-- `value ?? null`
abbrev or_null : Value → Value
or_null value = elim value [ undefined ↦ null | other ↦ other ]

-- The run whose id a slot holds has this status; a run that is gone counts as running.
abbrev status_of : Option RunRow → RunStatus
status_of none = running
status_of (some run) = run.status

-- `new RunActiveError(thread.executing_run_id, …)`
unfoldable pub active_error : MemoryStore → Option String → StoreError
active_error s none = failed ""
active_error s (some id) = run_active id (status_of (find_row id s.runs))

-- `thread.executing_run_id && thread.executing_run_id !== id`
abbrev pub taken_by_other : Option String → String → Bool
taken_by_other slot id = truthy slot && not (opt_eq slot id)

abbrev last_run_id : String → List RunRow → Option String
last_run_id thread_id [] = none
last_run_id thread_id (run ∷ runs) =
    let later = last_run_id thread_id runs in
    or_else later (if str_eq run.thread_id thread_id then some run.id else none)

abbrev parent_of_new : MemoryStore → ThreadRow → String → Option (Option String) → Option String
parent_of_new s thread thread_id (some parent) = parent
parent_of_new s thread thread_id none =
    or_else thread.active_run_id (last_run_id thread_id (rows s.runs))

abbrev is_in_thread : String → Option RunRow → Bool
is_in_thread thread_id none = false
is_in_thread thread_id (some run) = str_eq run.thread_id thread_id

-- A parent that is given is a run of the thread.
abbrev is_parent : MemoryStore → String → Option String → Bool
is_parent s thread_id none = true
is_parent s thread_id (some parent) =
    str_eq parent "" || is_in_thread thread_id (find_row parent s.runs)

abbrev is_version : Option ℕ → ℕ → Bool
is_version none version = true
is_version (some expected) version = expected == version

abbrev new_run :
    String → String → String → String → CreateRunOptions → Option String → StoredSpace → RunRow
new_run id now thread_id input options parent space = record {
  metadata = record {
    runtime = empty_runtime;
    goal = undefined;
    pending_interaction = undefined;
    context = none;
  };
  id = id;
  thread_id = thread_id;
  parent_run_id = parent;
  status = pending;
  input = input;
  model_ref = options.model_ref;
  output = none;
  error = none;
  goal_state = null;
  runtime_capabilities_snapshot = or_null options.runtime_capabilities_snapshot;
  space_config_snapshot = or_value options.space_config_snapshot (object space.config);
  space_config_version = some space.config_version;
  plugin_lock = or_value options.plugin_lock null;
  external_input_open = false;
  input_version = 0;
  runtime_state = empty_runtime;
  pending_interaction = null;
  created_at = now;
  updated_at = now;
}

-- What is required of a new run, with its thread, space and parent.
unfoldable pub check_create_run :
    MemoryStore → Scope → String → CreateRunOptions → R (ThreadRow × StoredSpace × Option String)
unfolding can_write owned_thread
check_create_run s scope thread_id options = do
  thread ← require_some (owned_thread s scope thread_id) (failed "threadId")
  space ← require_some (find_row thread.space_id s.spaces) (failed "space")
  require_that (is_web space.mode) (failed "external space")
  require_that (is_version options.expected_space_config_version space.config_version)
      space_config_changed
  require_that (can_write s scope space.id) (failed "space not writable")
  require_that (not (truthy thread.executing_run_id)) (active_error s thread.executing_run_id)
  let parent = parent_of_new s thread thread_id options.parent_run_id
  require_that (is_parent s thread_id parent) (failed "parentRunId")
  ok (thread, space, parent)

-- The thread's run is active, and holds its execution slot.
abbrev with_new_run : String → String → ThreadRow → ThreadRow
with_new_run id now thread = record thread {
  active_run_id = some id;
  executing_run_id = some id;
  updated_at = now;
}

unfoldable pub create_run :
    MemoryStore
    → Scope
    → (id now thread_id input : String) → CreateRunOptions
    → R (MemoryStore × RunRow)
unfolding check_create_run put_run put_thread
create_run s scope id now thread_id input options = do
  (thread, space, parent) ← check_create_run s scope thread_id options
  let run = new_run id now thread_id input options parent space
  ok (put_thread (with_new_run id now thread) thread_id (put_run run id s), run)

abbrev field_of : String → Value → Value
field_of key v = elim v [ object fields ↦ field key fields | _ ↦ undefined ]

abbrev is_text : String → Value → Bool
is_text s v = elim v [ string t ↦ str_eq t s | _ ↦ false ]

abbrev is_true : Value → Bool
is_true v = elim v [ bool b ↦ b | _ ↦ false ]

-- Whether the run's space takes further input while the run executes.
unfoldable pub opens_external_input : Value → Bool
opens_external_input snapshot =
    is_text "external" (field_of "mode" snapshot)
    && is_true (field_of "allowNextStep" (field_of "external" snapshot))

abbrev pub is_pending_or_running : RunStatus → Bool
is_pending_or_running status = elim status [ pending ↦ true | running ↦ true | _ ↦ false ]

abbrev pub taking_slot : String → ThreadRow → ThreadRow
taking_slot id thread = record thread { executing_run_id = some id }

-- `beginRunExecution`: whether the execution begins.
unfoldable pub begin_run_execution :
    MemoryStore → Scope → (id now : String) → R (MemoryStore × Bool)
unfolding owned_run put_run put_thread
begin_run_execution s scope id now = on_some (owned_run s scope id) (ok (s, false)) λ (run, thread).
    if not (is_pending_or_running run.status)
    then ok (s, false)
    else if taken_by_other thread.executing_run_id id
    then err (active_error s thread.executing_run_id)
    else let begun = record run {
      status = running;
      external_input_open = opens_external_input run.space_config_snapshot;
      updated_at = now;
    } in
      ok (put_run begun id (put_thread (taking_slot id thread) run.thread_id s), true)

unfoldable get_run : MemoryStore → Scope → String → Option RunRow
unfolding owned_run
get_run s scope id = on_some (owned_run s scope id) none λ (run, _). some run

unfoldable list_runs_by_status_unscoped : (RunStatus → Bool) → MemoryStore → List RunRow
list_runs_by_status_unscoped in_set s = filter (λ run. in_set run.status) (rows s.runs)
