-- ===== src/Store/Calls/Writes.antt =====
-- server/src/store/memoryStore.ts, class MemoryStore: the write of each call of a user.
use run_forge.Base.{String, refl, ok, err, OnOk, Value, Fields}
use run_forge.Store.Rows.{Scope}
use run_forge.Store.State.{MemoryStore}
use run_forge.Store.Runs.{R}
use run_forge.Store.Calls.{
  ScopedCall, state_or, apply_scoped, IsFresh, make_thread, title_thread, remove_thread, notify,
  start_run, begin_run, set_status, resume, close_external_input, set_goal, set_runtime,
  set_interaction, set_capabilities,
}
use run_forge.Store.Writes.{Write, kept}
use run_forge.Store.Writes.Operations.{
  begin_run_execution-Write, set_run_status-Write, resume_run-Write,
  close_external_input_and_apply_pending-Write, set_goal_state-Write, set_run_runtime_state-Write,
  set_run_pending_interaction-Write, set_runtime_capabilities_snapshot-Write, create_run-Write,
}
use run_forge.Store.Writes.Threads.{
  set_thread_title_if_empty-Write, delete_thread-Write, create_thread-Write,
  add_thread_notice-Write,
}

state_or-Write :
    {A : Type 0} (scope : Scope) (state : A → MemoryStore) (s : MemoryStore)
    → (outcome : R A) → OnOk (λ value. Write scope s (state value)) outcome
    → Write scope s (state_or state s outcome)
state_or-Write scope state s (ok value) effect = effect
state_or-Write scope state s (err _) effect = kept refl refl

module _ (media_refs_from_user_text : String → Value) (config : Fields) where
  pub apply_scoped-Write :
      (scope : Scope) (call : ScopedCall) (s : MemoryStore)
      → IsFresh call s
      → Write scope s (apply_scoped media_refs_from_user_text config scope call s)
  unfolding apply_scoped
  apply_scoped-Write scope (make_thread id new_space_id now title space_id) s fresh =
      create_thread-Write config s scope id now title fresh new_space_id space_id
  apply_scoped-Write scope (title_thread id now title) s fresh =
      set_thread_title_if_empty-Write s scope id now title
  apply_scoped-Write scope (remove_thread id) s fresh =
      state_or-Write scope _ s _ (delete_thread-Write s scope id)
  apply_scoped-Write scope (notify now input) s fresh =
      state_or-Write scope _ s _ (add_thread_notice-Write s scope now input)
  apply_scoped-Write scope (start_run id now thread_id input options) s fresh =
      state_or-Write scope _ s _
        (create_run-Write s scope id now thread_id input options fresh.0 fresh.1)
  apply_scoped-Write scope (begin_run id now) s fresh =
      state_or-Write scope _ s _ (begin_run_execution-Write s scope id now)
  apply_scoped-Write scope (set_status id now status fields) s fresh =
      state_or-Write scope _ s _ (set_run_status-Write s scope id now status fields)
  apply_scoped-Write scope (resume id now expected fields content) s fresh =
      state_or-Write scope _ s _
        (resume_run-Write s scope id now media_refs_from_user_text expected fields content)
  apply_scoped-Write scope (close_external_input id now) s fresh =
      close_external_input_and_apply_pending-Write s scope id now
  apply_scoped-Write scope (set_goal id now goal) s fresh = set_goal_state-Write s scope id now goal
  apply_scoped-Write scope (set_runtime id now state) s fresh =
      set_run_runtime_state-Write s scope id now state
  apply_scoped-Write scope (set_interaction id now interaction) s fresh =
      set_run_pending_interaction-Write s scope id now interaction
  apply_scoped-Write scope (set_capabilities id now snapshot) s fresh =
      set_runtime_capabilities_snapshot-Write s scope id now snapshot
