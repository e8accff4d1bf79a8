-- ===== src/Store/Runs/Status.antt =====
-- server/src/store/memoryStore.ts, class MemoryStore: the status of a run, and the slot of its thread.
-- The reader of media references in a user's text is a parameter.
use run_forge.Base.{
  ℕ, ◌+◌, String, Bool, true, false, not, ◌&&◌, ◌||◌, Option, none, some, List, [], ◌∷◌, ◌++◌,
  if◌then◌else◌, on_some, contains, find_row, keys, ok, err, Value, undefined, null,
}
use run_forge.Spaces.Access.{opt_eq}
use run_forge.Agent.Compaction.{LlmRole}
use run_forge.Store.Rows.{
  Scope, RunRow, RunStatus, pending, canceled, is_terminal_run_status, RunMetadata, StoredMessage,
  run_active,
}
use run_forge.Store.State.{MemoryStore, owned_run, put_thread, put_run}
use run_forge.Store.Runs.{
  R, or_value, active_error, taken_by_other, is_pending_or_running, taking_slot,
}

-- A slot that holds the run is released.
abbrev pub released : Option String → String → Option String
released slot id = if opt_eq slot id then none else slot

abbrev without_interaction : RunMetadata → RunMetadata
without_interaction metadata = record metadata { pending_interaction = null }

abbrev canceled_run : String → RunRow → RunRow
canceled_run now run = record run {
  status = canceled;
  error = some "所属资源已删除，运行已取消。";
  external_input_open = false;
  pending_interaction = null;
  metadata = without_interaction run.metadata;
  updated_at = now;
}

abbrev release_of : String → String → MemoryStore → MemoryStore
release_of thread_id id s = on_some (find_row thread_id s.threads) s λ thread.
    put_thread (record thread { executing_run_id = released thread.executing_run_id id }) thread_id
      s

-- One round of the loop of `cancelRunsForDeletion`.
unfoldable pub cancel_run : List String → String → String → MemoryStore → MemoryStore
unfolding put_run put_thread
cancel_run targets now id s = on_some (find_row id s.runs) s λ run.
    if not (contains targets run.thread_id) || is_terminal_run_status run.status
    then s
    else release_of run.thread_id id (put_run (canceled_run now run) id s)

unfoldable pub cancel_each : List String → String → List String → MemoryStore → MemoryStore
unfolding cancel_run
cancel_each targets now [] s = s
cancel_each targets now (id ∷ ids) s = cancel_each targets now ids (cancel_run targets now id s)

-- `cancelRunsForDeletion`
unfoldable pub cancel_runs_for_deletion : MemoryStore → List String → String → MemoryStore
unfolding cancel_each
cancel_runs_for_deletion s thread_ids now = cancel_each thread_ids now (keys s.runs) s

-- The texts that a change of status sets: `none` where the field is not given.
pub record RunTexts : Type 0 where
  pub output : Option (Option String)
  pub error : Option (Option String)

abbrev with_texts : RunTexts → RunRow → RunRow
with_texts fields run = record run {
  output = or_value fields.output run.output;
  error = or_value fields.error run.error;
}

abbrev with_status : RunStatus → RunTexts → String → RunRow → RunRow
with_status status fields now run =
    let set = with_texts fields run in
    record set {
      status = status;
      external_input_open = is_pending_or_running status && run.external_input_open;
      pending_interaction = if is_terminal_run_status status then null else run.pending_interaction;
      metadata =
          if is_terminal_run_status status then without_interaction run.metadata else run.metadata;
      updated_at = now;
    }

-- A status that is not terminal takes the thread's slot, a terminal one releases it.
abbrev slot_after : RunStatus → String → Option String → Option String
slot_after status id slot = if is_terminal_run_status status then released slot id else some id

-- `setRunStatus`
unfoldable pub set_run_status :
    MemoryStore → Scope → (id now : String) → RunStatus → RunTexts → R MemoryStore
unfolding owned_run put_run put_thread
set_run_status s scope id now status fields = on_some (owned_run s scope id) (ok s) λ (run, thread).
    if not (is_terminal_run_status status) && taken_by_other thread.executing_run_id id
    then err (active_error s thread.executing_run_id)
    else ok (
        put_run (with_status status fields now run) id (
          put_thread
            (record thread { executing_run_id = slot_after status id thread.executing_run_id })
            run.thread_id s))

-- `closeExternalInputAndApplyPending`: whether the input was open. The store in memory has no inputs
-- that wait.
unfoldable pub close_external_input_and_apply_pending :
    MemoryStore → Scope → (id now : String) → MemoryStore × Bool
unfolding owned_run put_run
close_external_input_and_apply_pending s scope id now =
    on_some (owned_run s scope id) ((s, false)) λ (run, _).
      if not (is_pending_or_running run.status) || not run.external_input_open
      then (s, false)
      else (put_run (record run { external_input_open = false; updated_at = now }) id s, true)

abbrev pub is_pending : RunStatus → Bool
is_pending status = elim status [ pending ↦ true | _ ↦ false ]

module _ (media_refs_from_user_text : String → Value) where
  abbrev user_message : RunRow → String → ℕ → String → StoredMessage
  user_message run content seq now = record {
    thread_id = run.thread_id;
    run_id = run.id;
    step_id = none;
    role = LlmRole.user;
    content = some content;
    tool_calls = [];
    tool_call_id = none;
    provider_state = undefined;
    media_refs = media_refs_from_user_text content;
    collapsed = none;
    summary_of = [];
    seq = seq;
    created_at = now;
  }

  abbrev pub push_user_message : RunRow → Option String → String → MemoryStore → MemoryStore
  push_user_message run none now s = s
  push_user_message run (some content) now s = record s {
    messages = s.messages ++ user_message run content s.seq now ∷ [];
    seq = s.seq + 1;
  }

  -- `resumeRun`; `none` when the run is not one of the user's in an expected status.
  unfoldable pub resume_run :
      MemoryStore
      → Scope
      → (id now : String) → (RunStatus → Bool)
      → RunTexts
      → Option String
      → R (MemoryStore × Option RunRow)
  unfolding owned_run put_run put_thread
  resume_run s scope id now expected fields content =
      on_some (owned_run s scope id) (ok (s, none)) λ (run, thread).
        if not (expected run.status)
        then ok (s, none)
        else if is_pending run.status && opt_eq thread.executing_run_id id
        then err (run_active id pending)
        else if taken_by_other thread.executing_run_id id
        then err (active_error s thread.executing_run_id)
        else let resumed = record (with_texts fields run) {
          status = pending;
          pending_interaction = null;
          metadata = without_interaction run.metadata;
          updated_at = now;
        } in
          ok (
            push_user_message run content now
                (put_thread (taking_slot id thread) run.thread_id (put_run resumed id s)),
            some resumed,
          )
