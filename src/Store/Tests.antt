-- ===== src/Store/Tests.antt =====
-- server/src/store/memoryStore.ts, class MemoryStore: small stores, and the theorems at them.
pub mod Accounts
pub mod Messages
use run_forge.Base.{
  String, none, some, List, [], ◌∷◌, ◌≡◌, refl, find_row, set_row, rows, take, drop, map, Value,
  undefined, no_fields,
}
use run_forge.Store.Rows.{
  is_terminal_run_status, Scope, ThreadRow, SourceType, RunStatus, CreateRunOptions,
}
use run_forge.Store.Shells.{
  ShellSessionStatus, ShellActor, ShellLogStream, ShellSessionRow, ShellCommandRow,
  ShellCommandWaitMode,
}
use run_forge.Store.State.{
  MemoryStore, empty_store, owned_command, owned_session, owned_thread, owned_run, owns_thread,
  can_write, put_thread, put_run,
}
use run_forge.Store.Runs.{create_run, check_create_run, begin_run_execution}
use run_forge.Store.Runs.Status.{RunTexts, set_run_status}
use run_forge.Store.Threads.{create_thread, ensure_default_space_for_tests}
use run_forge.Store.Calls.{
  Call, scoped, apply_scoped, apply, apply_all, AreFresh, make_thread, start_run, begin_run,
  set_status, remove_thread,
}
use run_forge.Store.Slots.{slot, live, IsSlotted}
use run_forge.Store.Slots.Board.{Move}
use run_forge.Store.Slots.Calls.{
  apply_all-IsSlotted, apply-IsMove, apply_all-one_run, empty_store-IsSlotted,
}
use run_forge.Store.Shells.Commands.{ShellCommandInput, new_command}
use run_forge.Store.Shells.Logs.{get_shell_command_logs}
use run_forge.Store.Shells.Paging.{append_chunks, chunk_of, get_shell_command_logs-append_chunks}
use run_forge.Store.Shells.Active.{active, IsSingle}
use run_forge.Store.Shells.Single.{create, apply_shell, apply_shell-IsSingle}
use run_forge.Store.Foreign.{run_in, apply_scoped-foreign}

abbrev no_media : String → Value
no_media text = undefined

abbrev pub alice : Scope
alice = record { tenant_id = "tenant_1"; user_id = "user_1" }

abbrev pub bob : Scope
bob = record { tenant_id = "tenant_1"; user_id = "user_2" }

abbrev no_options : CreateRunOptions
no_options = record {
  model_ref = none;
  parent_run_id = none;
  runtime_capabilities_snapshot = undefined;
  space_config_snapshot = none;
  plugin_lock = none;
  expected_space_config_version = none;
}

abbrev no_texts : RunTexts
no_texts = record { output = none; error = none }

-- Alice's thread runs a first run to its end, and then starts a second one.
abbrev two_runs : List Call
two_runs =
    scoped alice (make_thread "thread_1" "space_1" "t0" none none)
    ∷ scoped alice (start_run "run_1" "t1" "thread_1" "hello" no_options)
    ∷ scoped alice (begin_run "run_1" "t2")
    ∷ scoped alice (set_status "run_1" "t3" RunStatus.done no_texts)
    ∷ scoped alice (start_run "run_2" "t4" "thread_1" "again" no_options)
    ∷ []

abbrev after_two_runs : MemoryStore
after_two_runs = apply_all no_media no_fields two_runs empty_store

two_runs-AreFresh : AreFresh no_media no_fields two_runs empty_store
unfolding apply apply_scoped create_thread ensure_default_space_for_tests can_write create_run
    check_create_run begin_run_execution set_run_status owned_run owned_thread owns_thread
    put_thread put_run find_row set_row rows is_terminal_run_status
two_runs-AreFresh = (refl, ((refl, refl), (tt, (tt, ((refl, refl), tt)))))

apply_all-IsSlotted_example : IsSlotted after_two_runs
apply_all-IsSlotted_example =
    apply_all-IsSlotted no_media no_fields two_runs empty_store
      (empty_store-IsSlotted no_media no_fields) two_runs-AreFresh

abbrev run_2 : String
run_2 = "run_2"

apply_all-one_run_example : run_2 ≡ run_2
unfolding apply_all apply apply_scoped create_thread ensure_default_space_for_tests can_write
    create_run check_create_run begin_run_execution set_run_status owned_run owned_thread
    owns_thread put_thread put_run find_row set_row rows live is_terminal_run_status
apply_all-one_run_example =
    apply_all-one_run no_media no_fields two_runs two_runs-AreFresh "thread_1" "run_2" "run_2" refl
      refl

apply-IsMove_example : Move (slot after_two_runs) (
    slot (
      apply no_media no_fields
        (scoped alice (set_status "run_2" "t5" RunStatus.canceled no_texts))
        after_two_runs))
apply-IsMove_example =
    apply-IsMove no_media no_fields
      (scoped alice (set_status "run_2" "t5" RunStatus.canceled no_texts)) after_two_runs
      apply_all-IsSlotted_example tt

abbrev pub thread_of_alice : ThreadRow
thread_of_alice = record {
  id = "thread_1";
  tenant_id = "tenant_1";
  user_id = some "user_1";
  space_id = "space_1";
  source_type = SourceType.web;
  source_caller_id = none;
  source_ref = undefined;
  title = none;
  fallback_title = none;
  active_run_id = none;
  executing_run_id = none;
  pinned_at = none;
  archived_at = some "t1";
  created_at = "t0";
  updated_at = "t0";
}

abbrev pub one_thread : MemoryStore
one_thread = put_thread thread_of_alice "thread_1" empty_store

-- Bob cannot delete Alice's thread.
apply_scoped-foreign_example :
    (find_row "thread_1"
        (apply_scoped no_media no_fields bob (remove_thread "thread_1") one_thread).threads
      ≡ some thread_of_alice)
    × ((r : String)
        → run_in
            (apply_scoped no_media no_fields bob (remove_thread "thread_1") one_thread)
            "thread_1"
            r
          ≡ run_in one_thread "thread_1" r)
unfolding find_row set_row put_thread owns_thread
apply_scoped-foreign_example =
    apply_scoped-foreign no_media no_fields bob (remove_thread "thread_1") one_thread "thread_1"
      thread_of_alice tt refl refl

abbrev session_1 : ShellSessionRow
session_1 = record {
  id = "session_1";
  tenant_id = "tenant_1";
  thread_id = "thread_1";
  name = "main";
  owner = ShellActor.agent;
  workspace_root = "/w";
  cwd = "/w";
  backend = "local";
  status = ShellSessionStatus.idle;
  lease_actor = none;
  lease_run_id = none;
  config_snapshot = undefined;
  deleted_at = none;
  created_at = "t0";
  updated_at = "t0";
}

abbrev build : ShellCommandInput
build = record {
  session_id = "session_1";
  run_id = none;
  step_id = none;
  actor = ShellActor.agent;
  command = "make";
  cwd = "/w";
  wait_mode = ShellCommandWaitMode.foreground;
  soft_timeout_ms = none;
  hard_timeout_ms = none;
  soft_timeout_at = none;
  hard_timeout_at = none;
}

abbrev one_session : MemoryStore
one_session = record one_thread { shell_sessions = ("session_1", session_1) ∷ [] }

abbrev pub one_command : MemoryStore
one_command = apply_shell (create alice "command_1" "t2" build) one_session

apply_shell-IsSingle_example : IsSingle one_command
unfolding active find_row put_thread
apply_shell-IsSingle_example =
    apply_shell-IsSingle (create alice "command_1" "t2" build) one_session (λ i j session_id. refl)
      refl

abbrev command_1 : ShellCommandRow
command_1 = new_command "command_1" "t2" build

abbrev chunks : List (ShellLogStream × String)
chunks =
    (ShellLogStream.stdout, "a") ∷ (ShellLogStream.stderr, "b") ∷ (ShellLogStream.stdout, "c") ∷ []

abbrev with_command : MemoryStore
with_command = record one_session { shell_commands = ("command_1", command_1) ∷ [] }

-- The second and third piece.
get_shell_command_logs-append_chunks_example :
    map chunk_of (
      get_shell_command_logs
        (append_chunks alice "command_1" "t3" chunks with_command)
        alice
        "command_1"
        1
        2)
    ≡ take 2 (drop 1 chunks)
unfolding find_row set_row put_thread owns_thread owned_thread owned_session owned_command
get_shell_command_logs-append_chunks_example =
    get_shell_command_logs-append_chunks alice "command_1" "t3" chunks with_command command_1 1 2
      refl refl
