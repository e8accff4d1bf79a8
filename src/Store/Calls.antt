-- ===== src/Store/Calls.antt =====
-- server/src/store/memoryStore.ts, class MemoryStore: its calls on threads and runs, as data. A call
-- that throws leaves the store as it is. The reader of media references and the configuration of a
-- default space are parameters; new ids are fresh.
pub mod Writes
use run_forge.Base.{
  String, str_eq, Bool, true, false, Option, none, some, List, [], ◌∷◌, ◌≡◌, refl, find_row, keys,
  Result, ok, err, OnOk, Value, Fields, arith, sym, ap, ◌∙◌,
}
use run_forge.Store.Rows.{Scope, RunRow, RunStatus, CreateRunOptions, RunRuntimeState}
use run_forge.Store.State.{MemoryStore, empty_store}
use run_forge.Store.Runs.{R, create_run, begin_run_execution}
use run_forge.Store.Runs.Status.{
  RunTexts, set_run_status, close_external_input_and_apply_pending, resume_run,
  cancel_runs_for_deletion,
}
use run_forge.Store.Runs.Settings.{
  set_goal_state, set_run_runtime_state, set_run_pending_interaction,
  set_runtime_capabilities_snapshot,
}
use run_forge.Store.Threads.{
  create_thread, set_thread_title_if_empty, delete_thread, NoticeInput, add_thread_notice,
}

pub data ScopedCall : Type 0 where
  make_thread : (id new_space_id now : String) → (title space_id : Option String) → ScopedCall
  title_thread : (id now title : String) → ScopedCall
  remove_thread : String → ScopedCall
  notify : String → NoticeInput → ScopedCall
  start_run : (id now thread_id input : String) → CreateRunOptions → ScopedCall
  begin_run : (id now : String) → ScopedCall
  set_status : (id now : String) → RunStatus → RunTexts → ScopedCall
  resume : (id now : String) → (RunStatus → Bool) → RunTexts → Option String → ScopedCall
  close_external_input : (id now : String) → ScopedCall
  set_goal : (id now : String) → Value → ScopedCall
  set_runtime : (id now : String) → RunRuntimeState → ScopedCall
  set_interaction : (id now : String) → Value → ScopedCall
  set_capabilities : (id now : String) → Value → ScopedCall

pub data Call : Type 0 where
  scoped : Scope → ScopedCall → Call
  cancel_runs : List String → String → Call

-- The state after a call that returns one.
abbrev pub state_or : {A : Type 0} → (A → MemoryStore) → MemoryStore → R A → MemoryStore
state_or state s (ok value) = state value
state_or state s (err _) = s

abbrev itself : MemoryStore → MemoryStore
itself s = s

module _ (media_refs_from_user_text : String → Value) (default_memory_space_config : Fields) where
  unfoldable pub apply_scoped : Scope → ScopedCall → MemoryStore → MemoryStore
  apply_scoped scope call s = elim call [
    | make_thread id new_space_id now title space_id ↦
        (create_thread default_memory_space_config s scope id new_space_id now title space_id).0
    | title_thread id now title ↦ (set_thread_title_if_empty s scope id now title).0
    | remove_thread id ↦ state_or (λ done. done.0) s (delete_thread s scope id)
    | notify now input ↦ state_or (λ done. done.0) s (add_thread_notice s scope now input)
    | start_run id now thread_id input options ↦
        state_or (λ done. done.0) s (create_run s scope id now thread_id input options)
    | begin_run id now ↦ state_or (λ done. done.0) s (begin_run_execution s scope id now)
    | set_status id now status fields ↦
        state_or itself s (set_run_status s scope id now status fields)
    | resume id now expected fields content ↦
        state_or (λ done. done.0) s
          (resume_run media_refs_from_user_text s scope id now expected fields content)
    | close_external_input id now ↦ (close_external_input_and_apply_pending s scope id now).0
    | set_goal id now goal ↦ set_goal_state s scope id now goal
    | set_runtime id now state ↦ set_run_runtime_state s scope id now state
    | set_interaction id now interaction ↦ set_run_pending_interaction s scope id now interaction
    | set_capabilities id now snapshot ↦ set_runtime_capabilities_snapshot s scope id now snapshot
  ]

module _ (media_refs_from_user_text : String → Value) (default_memory_space_config : Fields) where
  unfoldable pub apply : Call → MemoryStore → MemoryStore
  unfolding apply_scoped
  apply call s = elim call [
    | scoped scope call ↦
        apply_scoped media_refs_from_user_text default_memory_space_config scope call s
    | cancel_runs thread_ids now ↦ cancel_runs_for_deletion s thread_ids now
  ]

  unfoldable pub apply_all : List Call → MemoryStore → MemoryStore
  apply_all [] s = s
  apply_all (call ∷ calls) s = apply_all calls (apply call s)

-- A call that takes a new id gets one that is not in use, and a run's id is not empty.
abbrev pub IsFresh : ScopedCall → MemoryStore → Type 0
IsFresh call s = elim call [
  | make_thread id _ _ _ _ ↦ find_row id s.threads ≡ none
  | start_run id _ _ _ _ ↦ (find_row id s.runs ≡ none) × (str_eq id "" ≡ false)
  | _ ↦ Unit
]

abbrev pub IsFreshCall : Call → MemoryStore → Type 0
IsFreshCall call s = elim call [ scoped _ call ↦ IsFresh call s | cancel_runs _ _ ↦ Unit ]

module _ (media_refs_from_user_text : String → Value) (default_memory_space_config : Fields) where
  -- Each call of a list is fresh when it is made.
  abbrev pub AreFresh : List Call → MemoryStore → Type 0
  AreFresh [] s = Unit
  AreFresh (call ∷ calls) s =
      IsFreshCall call s
      × AreFresh calls (apply media_refs_from_user_text default_memory_space_config call s)
