-- ===== src/Store/Writes/Operations.antt =====
-- server/src/store/memoryStore.ts, class MemoryStore: the write of each operation on runs.
use run_forge.Base.{
  String, str_eq, Bool, false, not, ◌&&◌, ◌||◌, Option, none, some, ◌≡◌, refl, arith, inl, inr,
  Bool-cases, Option-cases, find_row, truthy, OnOk, OnOk-if, OnOk-bind, OnOk-value, Value,
}
use run_forge.Spaces.Access.{opt_eq}
use run_forge.Store.Rows.{
  Scope, RunRow, RunStatus, is_terminal_run_status, CreateRunOptions, RunRuntimeState,
}
use run_forge.Store.State.{MemoryStore, put_thread, put_run, owned_thread, owned_run}
use run_forge.Store.Runs.{
  taken_by_other, check_create_run, create_run, begin_run_execution, is_pending_or_running,
}
use run_forge.Store.Runs.Status.{
  RunTexts, is_pending, push_user_message, set_run_status, close_external_input_and_apply_pending,
  resume_run,
}
use run_forge.Store.Runs.Settings.{
  change_run, set_goal_state, set_run_runtime_state, set_run_pending_interaction,
  set_runtime_capabilities_snapshot,
}
use run_forge.Store.Writes.{Write, kept, changes_run, takes_slot, frees_slot, starts_run}

push_user_message-tables :
    (refs : String → Value) (run : RunRow) (content : Option String) (now : String)
    (s : MemoryStore)
    → ((push_user_message refs run content now s).threads ≡ s.threads)
      × ((push_user_message refs run content now s).runs ≡ s.runs)
push_user_message-tables refs run none now s = (refl, refl)
push_user_message-tables refs run (some text) now s = (refl, refl)

module _ (s : MemoryStore) (scope : Scope) (id now : String) where
  pub begin_run_execution-Write :
      OnOk (λ done. Write scope s done.0) (begin_run_execution s scope id now)
  unfolding begin_run_execution put_run put_thread is_terminal_run_status
  begin_run_execution-Write = elim (Option-cases (owned_run s scope id)) [
    | inl missing ↦ rw missing (kept refl refl)
    | inr ((run, thread), found) ↦ rw found (
        OnOk-if _ (not (is_pending_or_running run.status)) _ _ (λ _. kept refl refl)
          (λ active.
            OnOk-if _ (taken_by_other thread.executing_run_id id) _ _ (λ _. tt)
              (λ free. takes_slot id run _ thread _ found free refl refl refl refl refl)))
  ]

  pub set_run_status-Write :
      (status : RunStatus) (fields : RunTexts)
      → OnOk (λ s'. Write scope s s') (set_run_status s scope id now status fields)
  unfolding set_run_status put_run put_thread
  set_run_status-Write status fields = elim (Option-cases (owned_run s scope id)) [
    | inl missing ↦ rw missing (kept refl refl)
    | inr ((run, thread), found) ↦ elim (Bool-cases (is_terminal_run_status status)) [
      | inl over ↦ rw (found, over) (frees_slot id run _ thread _ found refl refl refl over refl)
      | inr going ↦
          rw (found, going)
            (OnOk-if _ (taken_by_other thread.executing_run_id id) _ _ (λ _. tt)
              (λ free. takes_slot id run _ thread _ found free refl refl refl going refl))
    ]
  ]

  pub resume_run-Write :
      (media_refs_from_user_text : String → Value) (expected : RunStatus → Bool) (fields : RunTexts)
      (content : Option String)
      → OnOk
          (λ done. Write scope s done.0)
          (resume_run media_refs_from_user_text s scope id now expected fields content)
  unfolding resume_run put_run put_thread is_terminal_run_status
  resume_run-Write refs expected fields content = elim (Option-cases (owned_run s scope id)) [
    | inl missing ↦ rw missing (kept refl refl)
    | inr ((run, thread), found) ↦ rw found (
        OnOk-if _ (not (expected run.status)) _ _ (λ _. kept refl refl)
          (λ expects.
            OnOk-if _ (is_pending run.status && opt_eq thread.executing_run_id id) _ _ (λ _. tt)
              (λ fresh.
                OnOk-if _ (taken_by_other thread.executing_run_id id) _ _ (λ _. tt)
                  (λ free.
                    let pushed = push_user_message-tables refs run content now in
                    takes_slot id run _ thread _ found free (pushed _).0 (pushed _).1 refl refl
                      refl))))
  ]

  pub close_external_input_and_apply_pending-Write :
      Write scope s (close_external_input_and_apply_pending s scope id now).0
  unfolding close_external_input_and_apply_pending put_run
  close_external_input_and_apply_pending-Write = elim (Option-cases (owned_run s scope id)) [
    | inl missing ↦ rw missing (kept refl refl)
    | inr ((run, thread), found) ↦
        elim (Bool-cases (not (is_pending_or_running run.status) || not run.external_input_open)) [
          | inl shut ↦ rw (found, shut) (kept refl refl)
          | inr taking ↦ rw (found, taking) (changes_run id run _ thread found refl refl refl refl)
        ]
  ]

  -- A change of a run that keeps its status and thread.
  change_run-Write :
      (f : RunRow → RunRow)
      → ((run : RunRow) → (f run).status ≡ run.status)
      → ((run : RunRow) → (f run).thread_id ≡ run.thread_id)
      → Write scope s (change_run s scope id f)
  unfolding put_run
  change_run-Write f status same = elim (Option-cases (owned_run s scope id)) [
    | inl missing ↦ rw missing (kept refl refl)
    | inr ((run, thread), found) ↦
        rw found (changes_run id run _ thread found refl refl (status run) (same run))
  ]

  pub set_goal_state-Write : (goal : Value) → Write scope s (set_goal_state s scope id now goal)
  unfolding set_goal_state
  set_goal_state-Write goal = change_run-Write _ (λ run. refl) (λ run. refl)

  pub set_run_runtime_state-Write :
      (state : RunRuntimeState) → Write scope s (set_run_runtime_state s scope id now state)
  unfolding set_run_runtime_state
  set_run_runtime_state-Write state = change_run-Write _ (λ run. refl) (λ run. refl)

  pub set_run_pending_interaction-Write :
      (interaction : Value) → Write scope s (set_run_pending_interaction s scope id now interaction)
  unfolding set_run_pending_interaction
  set_run_pending_interaction-Write interaction = change_run-Write _ (λ run. refl) (λ run. refl)

  pub set_runtime_capabilities_snapshot-Write :
      (snapshot : Value) → Write scope s (set_runtime_capabilities_snapshot s scope id now snapshot)
  unfolding set_runtime_capabilities_snapshot
  set_runtime_capabilities_snapshot-Write snapshot = change_run-Write _ (λ run. refl) (λ run. refl)

-- The thread of a new run is one of the user's, and executes no run.
check_create_run-Free :
    (s : MemoryStore) (scope : Scope) (thread_id : String) (options : CreateRunOptions)
    → OnOk
        (λ checked.
          (owned_thread s scope thread_id ≡ some checked.0)
          × (truthy checked.0.executing_run_id ≡ false))
        (check_create_run s scope thread_id options)
unfolding check_create_run owned_thread
check_create_run-Free s scope thread_id options = ground arith

pub create_run-Write :
    (s : MemoryStore) (scope : Scope) (id now thread_id input : String) (options : CreateRunOptions)
    → find_row id s.runs ≡ none
    → str_eq id "" ≡ false
    → OnOk (λ done. Write scope s done.0) (create_run s scope id now thread_id input options)
unfolding create_run put_run put_thread is_terminal_run_status
create_run-Write s scope id now thread_id input options fresh named =
    OnOk-bind _ (check_create_run s scope thread_id options) _ λ checked passes.
      let facts = OnOk-value _ (check_create_run-Free s scope thread_id options) passes in
      starts_run id _ thread_id checked.0 _ fresh named facts.0 facts.1 refl refl refl refl refl
