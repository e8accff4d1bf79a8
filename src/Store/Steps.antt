-- ===== src/Store/Steps.antt =====
-- server/src/store/memoryStore.ts, class MemoryStore: steps, and the messages that they index.
-- A step that is changed through a reference is the first one with its id.
pub mod Results
use run_forge.Base.{
  ℕ, ◌+◌, max, String, str_eq, Bool, true, false, not, ◌&&◌, Option, none, some, List, [], ◌∷◌,
  ◌++◌, if◌then◌else◌, on_some, is_some, any, all, filter, find, length, truthy, contains, map,
  find_row, Result, ok, err, require_that, require_some, ◌>>=◌, ◌>>◌, Value, undefined,
}
use run_forge.Agent.Compaction.{LlmRole, LlmToolCall, assistant, tool}
use run_forge.Store.Rows.{
  Scope, RunRow, StepRow, StepAggregate, StepToolResult, StoredMessage, StoreError, failed,
}
use run_forge.Store.State.{MemoryStore, owned_thread, owned_run}
use run_forge.Store.Runs.{R, or_value}

unfoldable pub create_step :
    MemoryStore → Scope → (id now run_id : String) → ℕ → R (MemoryStore × StepRow)
unfolding owned_run
create_step s scope id now run_id idx =
    on_some (owned_run s scope run_id) (err (failed "runId")) λ _.
      let step : StepRow = record {
        id = id;
        run_id = run_id;
        idx = idx;
        context_snapshot = none;
        result = none;
        tool_results = [];
        completed_at = none;
        created_at = now;
      } in
      ok (record s { steps = s.steps ++ step ∷ [] }, step)

unfoldable pub change_first : (StepRow → Bool) → (StepRow → StepRow) → List StepRow → List StepRow
change_first p f [] = []
change_first p f (step ∷ steps) =
    let rest = change_first p f steps in if p step then f step ∷ steps else step ∷ rest

abbrev pub has_step_id : String → StepRow → Bool
has_step_id id step = str_eq step.id id

abbrev assistant_index : RunRow → String → StepAggregate → ℕ → StoredMessage
assistant_index run step_id result seq = record {
  thread_id = run.thread_id;
  run_id = run.id;
  step_id = some step_id;
  role = assistant;
  content = none;
  tool_calls = [];
  tool_call_id = none;
  provider_state = undefined;
  media_refs = undefined;
  collapsed = none;
  summary_of = [];
  seq = seq;
  created_at = result.ended_at;
}

abbrev with_result : StepAggregate → StepRow → StepRow
with_result result step = record step { result = some result; completed_at = some result.ended_at }

-- `saveStepResult`, with the number of the message.
unfoldable pub save_step_result : MemoryStore → Scope → String → StepAggregate → R (MemoryStore × ℕ)
unfolding owned_run change_first
save_step_result s scope step_id result = do
  step ← require_some (find (has_step_id step_id) s.steps) (failed "step")
  (run, thread) ← require_some (owned_run s scope step.run_id) (failed "step")
  require_that (not (is_some step.result)) (failed "step")
  ok (
    record s {
      steps = change_first (has_step_id step_id) (with_result result) s.steps;
      messages = s.messages ++ assistant_index run step_id result s.seq ∷ [];
      seq = s.seq + 1;
    },
    s.seq,
  )

unfoldable pub steps_of_run : MemoryStore → String → List StepRow
steps_of_run s run_id = filter (λ step. str_eq step.run_id run_id) s.steps

unfoldable pub last_index : List StepRow → ℕ
last_index [] = 0
last_index (step ∷ steps) = max step.idx (last_index steps)

unfoldable pub get_last_step_index : MemoryStore → Scope → String → ℕ
unfolding owned_run steps_of_run last_index
get_last_step_index s scope run_id =
    on_some (owned_run s scope run_id) 0 λ _. last_index (steps_of_run s run_id)

abbrev pub answers : String → List StepToolResult → Bool
answers call_id results = any (λ result. str_eq result.tool_call_id call_id) results

-- The model's answer is there, and a result for each of its calls.
unfoldable pub is_complete : StepRow → Bool
is_complete step =
    on_some step.result false
      λ result. all (λ call. answers call.id step.tool_results) result.tool_calls

unfoldable pub get_last_completed_step_index : MemoryStore → Scope → String → ℕ
unfolding owned_run steps_of_run last_index is_complete
get_last_completed_step_index s scope run_id =
    on_some (owned_run s scope run_id) 0
      λ _. last_index (filter is_complete (steps_of_run s run_id))

unfoldable pub count_run_messages : MemoryStore → Scope → String → ℕ
unfolding owned_run
count_run_messages s scope run_id =
    on_some (owned_run s scope run_id) 0
      λ _. length (filter (λ message. str_eq message.run_id run_id) s.messages)

pub record MessageInput : Type 0 where
  pub role : LlmRole
  pub content : Option String
  pub tool_calls : List LlmToolCall
  pub tool_call_id : Option String
  pub provider_state : Value
  pub media_refs : Value

pub record Timing : Type 0 where
  pub started_at : String
  pub ended_at : String
  pub duration_ms : ℕ

abbrev pub is_tool : LlmRole → Bool
is_tool role = elim role [ tool ↦ true | _ ↦ false ]

abbrev pub is_assistant : LlmRole → Bool
is_assistant role = elim role [ assistant ↦ true | _ ↦ false ]

abbrev pub new_result : String → MessageInput → Option Timing → StepToolResult
new_result now message timing = record {
  tool_call_id = or_value message.tool_call_id "";
  content = or_value message.content "";
  created_at = on_some timing now λ given. given.ended_at;
  media_refs = message.media_refs;
  started_at = on_some timing none λ given. some given.started_at;
  duration_ms = on_some timing none λ given. some given.duration_ms;
}

abbrev pub has_step : (step_id run_id : String) → StepRow → Bool
has_step step_id run_id step = str_eq step.id step_id && str_eq step.run_id run_id

abbrev pub with_tool_result : StepToolResult → StepRow → StepRow
with_tool_result result step = record step { tool_results = step.tool_results ++ result ∷ [] }

-- The steps with the result of a tool, which its step must not have yet.
unfoldable pub add_tool_result :
    List StepRow
    → (now run_id : String) → Option String
    → MessageInput
    → Option Timing
    → R (List StepRow)
unfolding change_first
add_tool_result all_steps now run_id step_id message timing = do
  require_that (truthy step_id) (failed "step required")
  let id = or_value step_id ""
  step ← require_some (find (has_step id run_id) all_steps) (failed "step")
  require_that (not (answers (or_value message.tool_call_id "") step.tool_results))
      (failed "tool result exists")
  ok (
      change_first (has_step id run_id) (with_tool_result (new_result now message timing))
        all_steps)

abbrev new_message :
    MessageInput → (thread_id run_id now : String) → Option String → ℕ → StoredMessage
new_message message thread_id run_id now step_id seq = record {
  thread_id = thread_id;
  run_id = run_id;
  step_id = step_id;
  role = message.role;
  content = if is_tool message.role then none else message.content;
  tool_calls = message.tool_calls;
  tool_call_id = message.tool_call_id;
  provider_state = message.provider_state;
  media_refs = if is_tool message.role then undefined else message.media_refs;
  collapsed = none;
  summary_of = [];
  seq = seq;
  created_at = now;
}

-- `addMessage`, with the number of the message. The message of a tool has a call id.
unfoldable pub add_message :
    MemoryStore
    → Scope
    → (now thread_id run_id : String) → Option String
    → MessageInput
    → Option Timing
    → R (MemoryStore × ℕ)
unfolding owned_thread add_tool_result
add_message s scope now thread_id run_id step_id message timing = do
  thread ← require_some (owned_thread s scope thread_id) (failed "threadId")
  require_that (not (is_assistant message.role)) (failed "assistant")
  changed ←
      if is_tool message.role
      then add_tool_result s.steps now run_id step_id message timing
      else ok s.steps
  ok (
    record s {
      steps = changed;
      messages = s.messages ++ new_message message thread_id run_id now step_id s.seq ∷ [];
      seq = s.seq + 1;
    },
    s.seq,
  )
