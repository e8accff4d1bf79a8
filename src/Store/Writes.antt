-- ===== src/Store/Writes.antt =====
-- server/src/store/memoryStore.ts, class MemoryStore: the ways in which a call of a user writes to the
-- tables of threads and runs. Each call is one of these, so that a property of all calls is proved
-- once for each way.
pub mod Operations
pub mod Threads
use run_forge.Base.{
  String, str_eq, Bool, true, false, Option, none, some, ◌≡◌, Table, find_row, set_row, truthy,
}
use run_forge.Store.Rows.{Scope, ThreadRow, RunRow, is_terminal_run_status}
use run_forge.Store.State.{MemoryStore, owned_thread, owned_run}
use run_forge.Store.Runs.{taken_by_other}
use run_forge.Store.Runs.Status.{released}
use run_forge.Store.Threads.{run_ids_of, has_active_run, purge_thread}

pub data Write (scope : Scope) (s s' : MemoryStore) : Type 0 where
  kept : s'.threads ≡ s.threads → s'.runs ≡ s.runs → Write scope s s'
  -- A run keeps its status and thread.
  changes_run :
      (id : String) (run run' : RunRow) (thread : ThreadRow)
      → owned_run s scope id ≡ some (run, thread)
      → s'.threads ≡ s.threads
      → s'.runs ≡ set_row id run' s.runs
      → run'.status ≡ run.status
      → run'.thread_id ≡ run.thread_id
      → Write scope s s'
  -- An unfinished run of a thread takes its slot.
  takes_slot :
      (id : String) (run run' : RunRow) (thread thread' : ThreadRow)
      → owned_run s scope id ≡ some (run, thread)
      → taken_by_other thread.executing_run_id id ≡ false
      → s'.threads ≡ set_row run.thread_id thread' s.threads
      → s'.runs ≡ set_row id run' s.runs
      → thread'.executing_run_id ≡ some id
      → is_terminal_run_status run'.status ≡ false
      → run'.thread_id ≡ run.thread_id
      → Write scope s s'
  -- A run that is finished releases the slot.
  frees_slot :
      (id : String) (run run' : RunRow) (thread thread' : ThreadRow)
      → owned_run s scope id ≡ some (run, thread)
      → s'.threads ≡ set_row run.thread_id thread' s.threads
      → s'.runs ≡ set_row id run' s.runs
      → thread'.executing_run_id ≡ released thread.executing_run_id id
      → is_terminal_run_status run'.status ≡ true
      → run'.thread_id ≡ run.thread_id
      → Write scope s s'
  -- A new run starts in a thread that executes none.
  starts_run :
      (id : String) (run' : RunRow) (t : String) (thread thread' : ThreadRow)
      → find_row id s.runs ≡ none
      → str_eq id "" ≡ false
      → owned_thread s scope t ≡ some thread
      → truthy thread.executing_run_id ≡ false
      → s'.threads ≡ set_row t thread' s.threads
      → s'.runs ≡ set_row id run' s.runs
      → thread'.executing_run_id ≡ some id
      → is_terminal_run_status run'.status ≡ false
      → run'.thread_id ≡ t
      → Write scope s s'
  -- A thread keeps its slot.
  changes_thread :
      (id : String) (thread thread' : ThreadRow)
      → owned_thread s scope id ≡ some thread
      → s'.threads ≡ set_row id thread' s.threads
      → s'.runs ≡ s.runs
      → thread'.executing_run_id ≡ thread.executing_run_id
      → Write scope s s'
  opens_thread :
      (id : String) (thread' : ThreadRow)
      → find_row id s.threads ≡ none
      → s'.threads ≡ set_row id thread' s.threads
      → s'.runs ≡ s.runs
      → thread'.executing_run_id ≡ none
      → Write scope s s'
  -- A thread without an unfinished run goes, with all that stands under it.
  purges :
      (id : String) (thread : ThreadRow)
      → owned_thread s scope id ≡ some thread
      → has_active_run s id ≡ false
      → s' ≡ purge_thread id s
      → Write scope s s'
