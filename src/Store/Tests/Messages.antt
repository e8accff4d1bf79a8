-- ===== src/Store/Tests/Messages.antt =====
-- server/src/store/memoryStore.ts, class MemoryStore, `addMessage`: a result of a tool.
use run_forge.Base.{true, none, some, [], ◌∷◌, ◌≡◌, refl, all, map, length, find_row, undefined}
use run_forge.Agent.Compaction.{LlmRole}
use run_forge.Store.Rows.{StepRow}
use run_forge.Store.State.{MemoryStore, owned_thread, owns_thread}
use run_forge.Store.Steps.{MessageInput, add_message, add_tool_result, change_first}
use run_forge.Store.Steps.Results.{distinct_calls, once, add, apply_step, apply_step-once}
use run_forge.Store.Tests.{alice, bob, one_thread, thread_of_alice}

abbrev step_1 : StepRow
step_1 = record {
  id = "step_1";
  run_id = "run_1";
  idx = 1;
  context_snapshot = none;
  result = none;
  tool_results = [];
  completed_at = none;
  created_at = "t2";
}

abbrev answer : MessageInput
answer = record {
  role = LlmRole.tool;
  content = some "ok";
  tool_calls = [];
  tool_call_id = some "call_1";
  provider_state = undefined;
  media_refs = undefined;
}

abbrev one_step : MemoryStore
one_step = record one_thread { steps = step_1 ∷ [] }

apply_step-once_example :
    all once
      (apply_step alice (add "t3" "thread_1" "run_1" (some "step_1") answer none) one_step).steps
    ≡ true
unfolding distinct_calls
apply_step-once_example =
    apply_step-once alice (add "t3" "thread_1" "run_1" (some "step_1") answer none) one_step refl

-- Bob's own thread.
abbrev two_threads : MemoryStore
two_threads = record one_step {
  threads =
      ("thread_1", thread_of_alice)
      ∷ ("thread_2", record thread_of_alice { id = "thread_2"; user_id = some "user_2" })
      ∷ [];
}

-- A message for Bob's thread that names Alice's run and step changes her step.
foreign_step_test :
    map
      (λ step. length step.tool_results)
      (apply_step bob (add "t3" "thread_2" "run_1" (some "step_1") answer none) two_threads).steps
    ≡ 1 ∷ []
unfolding apply_step add_message add_tool_result change_first owned_thread owns_thread find_row
foreign_step_test = refl
