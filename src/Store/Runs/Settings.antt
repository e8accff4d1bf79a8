-- ===== src/Store/Runs/Settings.antt =====
-- server/src/store/memoryStore.ts, class MemoryStore: the fields of a run that change alone.
use run_forge.Base.{String, on_some, Value}
use run_forge.Store.Rows.{Scope, RunRow, RunRuntimeState}
use run_forge.Store.State.{MemoryStore, owned_run, put_run}

-- A change of the fields of a run that a user owns.
abbrev pub change_run : MemoryStore → Scope → String → (RunRow → RunRow) → MemoryStore
change_run s scope id f = on_some (owned_run s scope id) s λ (run, _). put_run (f run) id s

unfoldable pub set_goal_state : MemoryStore → Scope → (id now : String) → Value → MemoryStore
unfolding owned_run put_run
set_goal_state s scope id now goal = change_run s scope id λ run.
    let metadata = run.metadata in
    record run { goal_state = goal; metadata = record metadata { goal = goal }; updated_at = now }

unfoldable pub set_run_runtime_state :
    MemoryStore → Scope → (id now : String) → RunRuntimeState → MemoryStore
unfolding owned_run put_run
set_run_runtime_state s scope id now state = change_run s scope id λ run.
    let metadata = run.metadata in
    record run {
      runtime_state = state;
      metadata = record metadata { runtime = state };
      updated_at = now;
    }

unfoldable pub set_run_pending_interaction :
    MemoryStore → Scope → (id now : String) → Value → MemoryStore
unfolding owned_run put_run
set_run_pending_interaction s scope id now interaction = change_run s scope id λ run.
    let metadata = run.metadata in
    record run {
      pending_interaction = interaction;
      metadata = record metadata { pending_interaction = interaction };
      updated_at = now;
    }

unfoldable pub set_runtime_capabilities_snapshot :
    MemoryStore → Scope → (id now : String) → Value → MemoryStore
unfolding owned_run put_run
set_runtime_capabilities_snapshot s scope id now snapshot =
    change_run s scope id
      λ run. record run { runtime_capabilities_snapshot = snapshot; updated_at = now }
