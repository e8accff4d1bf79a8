-- ===== src/Store/Steps/Results.antt =====
-- server/src/store/memoryStore.ts, class MemoryStore, `addMessage`: a step has one result for a call.
use run_forge.Base.{
  ℕ, String, str_eq, eq_iff, Bool, true, false, not, ◌&&◌, Option, some, List, [], ◌∷◌, ◌++◌,
  if◌then◌else◌, all, find, any-append, ◌≡◌, refl, sym, ap, ◌∙◌, arith, inl, inr, Bool-cases,
  Option-cases, ok, err, OnOk, OnOk-bind, OnOk-value, OnOk-if, require_that, require_some, on_some,
  is_some, truthy,
}
use run_forge.Store.Rows.{Scope, StepRow, StepAggregate, StepToolResult, failed}
use run_forge.Store.State.{MemoryStore, owned_thread, owned_run}
use run_forge.Store.Runs.{R, or_value}
use run_forge.Store.Calls.{state_or}
use run_forge.Store.Steps.{
  create_step, change_first, save_step_result, answers, MessageInput, Timing, new_result, has_step,
  has_step_id, with_tool_result, add_tool_result, add_message, is_tool, is_assistant,
}

-- No two results have one call.
unfoldable pub distinct_calls : List StepToolResult → Bool
distinct_calls [] = true
distinct_calls (result ∷ results) =
    not (answers result.tool_call_id results) && distinct_calls results

abbrev pub once : StepRow → Bool
once step = distinct_calls step.tool_results

distinct-append :
    (results : List StepToolResult) (result : StepToolResult)
    → distinct_calls results ≡ true
    → answers result.tool_call_id results ≡ false
    → distinct_calls (results ++ result ∷ []) ≡ true
unfolding distinct_calls
distinct-append [] result d a = refl
distinct-append (first ∷ results) result d a = ground (
  arith,
  distinct-append results result,
  any-append (λ r. str_eq r.tool_call_id first.tool_call_id) results (result ∷ []),
  d,
  a,
  eq_iff first.tool_call_id result.tool_call_id,
  eq_iff result.tool_call_id first.tool_call_id,
)

all-append_one :
    (q : StepRow → Bool) (steps : List StepRow) (step : StepRow)
    → all q steps ≡ true
    → q step ≡ true
    → all q (steps ++ step ∷ []) ≡ true
all-append_one q [] step a e = ground (arith, e)
all-append_one q (first ∷ steps) step a e = ground (arith, all-append_one q steps step, a, e)

all-find :
    (q p : StepRow → Bool) (steps : List StepRow) {step : StepRow}
    → all q steps ≡ true
    → find p steps ≡ some step
    → q step ≡ true
all-find q p [] a e = cc
all-find q p (first ∷ steps) {step} a e = elim (Bool-cases (p first)) [
  | inl here ↦ ground (arith, a, e, here)
  | inr later ↦ all-find q p steps (ground (arith, a)) (ground (arith, e, later))
]

all-change_first :
    (q p : StepRow → Bool) (f : StepRow → StepRow) (steps : List StepRow) {step : StepRow}
    → all q steps ≡ true
    → find p steps ≡ some step
    → q (f step) ≡ true
    → all q (change_first p f steps) ≡ true
unfolding change_first
all-change_first q p f [] a e good = cc
all-change_first q p f (first ∷ steps) {step} a e good = elim (Bool-cases (p first)) [
  | inl here ↦
      let found : find p (first ∷ steps) ≡ some first = rw here refl in
      let changed : q (f first) ≡ true =
        ap (λ o. on_some o true λ x. q (f x)) (sym found ∙ e) ∙ good in
      rw (here, changed) (ground (arith, a))
  | inr later ↦
      let found : find p (first ∷ steps) ≡ find p steps = rw later refl in
      let rest =
        all-change_first q p f steps {step = step} (ground (arith, a)) (sym found ∙ e) good in
      rw (later, rest) (ground (arith, a))
]

add_tool_result-once :
    (steps : List StepRow) (now run_id : String) (step_id : Option String) (message : MessageInput)
    (timing : Option Timing)
    → all once steps ≡ true
    → OnOk
        (λ changed. all once changed ≡ true)
        (add_tool_result steps now run_id step_id message timing)
unfolding add_tool_result
add_tool_result-once steps now run_id step_id message timing before =
    OnOk-bind _ (require_that (truthy step_id) (failed "step required")) _ λ _ _.
      elim (Option-cases (find (has_step (or_value step_id "") run_id) steps)) [
        | inl missing ↦ rw missing tt
        | inr (step, found) ↦
            elim (Bool-cases (answers (or_value message.tool_call_id "") step.tool_results)) [
              | inl twice ↦ rw (found, twice) tt
              | inr first ↦
                  rw (found, first)
                    (all-change_first once (has_step (or_value step_id "") run_id)
                      (with_tool_result (new_result now message timing)) steps {step = step} before
                      found
                      (distinct-append step.tool_results (new_result now message timing)
                        (all-find once _ steps before found) first))
            ]
      ]

create_step-once :
    (s : MemoryStore)
    → all once s.steps ≡ true
    → (scope : Scope) (id now run_id : String) (idx : ℕ)
    → OnOk (λ done. all once done.0.steps ≡ true) (create_step s scope id now run_id idx)
unfolding create_step distinct_calls
create_step-once s before scope id now run_id idx = elim (Option-cases (owned_run s scope run_id)) [
  | inl missing ↦ rw missing tt
  | inr (run, found) ↦ rw found (all-append_one once s.steps _ before refl)
]

save_step_result-once :
    (s : MemoryStore)
    → all once s.steps ≡ true
    → (scope : Scope) (step_id : String) (result : StepAggregate)
    → OnOk (λ done. all once done.0.steps ≡ true) (save_step_result s scope step_id result)
unfolding save_step_result
save_step_result-once s before scope step_id result =
    elim (Option-cases (find (has_step_id step_id) s.steps)) [
      | inl missing ↦ rw missing tt
      | inr (step, found) ↦ elim (Option-cases (owned_run s scope step.run_id)) [
        | inl foreign ↦ rw (found, foreign) tt
        | inr (run, mine) ↦
            rw (found, mine)
              (OnOk-bind _ (require_that (not (is_some step.result)) (failed "step")) _ λ _ _.
                all-change_first once (has_step_id step_id) _ s.steps {step = step} before found
                  (all-find once _ s.steps before found))
      ]
    ]

add_message-once :
    (s : MemoryStore)
    → all once s.steps ≡ true
    → (scope : Scope) (now thread_id run_id : String) (step_id : Option String)
      (message : MessageInput) (timing : Option Timing)
    → OnOk
        (λ done. all once done.0.steps ≡ true)
        (add_message s scope now thread_id run_id step_id message timing)
unfolding add_message
add_message-once s before scope now thread_id run_id step_id message timing =
    OnOk-bind _ (require_some (owned_thread s scope thread_id) (failed "threadId")) _ λ _ _.
      OnOk-bind _ (require_that (not (is_assistant message.role)) (failed "assistant")) _ λ _ _.
        OnOk-bind _
          (if is_tool message.role
            then add_tool_result s.steps now run_id step_id message timing
            else ok s.steps)
          _
          λ changed e.
            OnOk-value (λ steps. all once steps ≡ true)
              (OnOk-if _ (is_tool message.role) _ _
                (λ _. add_tool_result-once s.steps now run_id step_id message timing before)
                (λ _. before))
              e

pub data StepCall : Type 0 where
  create : (id now run_id : String) → ℕ → StepCall
  save_result : String → StepAggregate → StepCall
  add : (now thread_id run_id : String) → Option String → MessageInput → Option Timing → StepCall

unfoldable pub apply_step : Scope → StepCall → MemoryStore → MemoryStore
apply_step scope (create id now run_id idx) s =
    state_or (λ done. done.0) s (create_step s scope id now run_id idx)
apply_step scope (save_result step_id result) s =
    state_or (λ done. done.0) s (save_step_result s scope step_id result)
apply_step scope (add now thread_id run_id step_id message timing) s =
    state_or (λ done. done.0) s (add_message s scope now thread_id run_id step_id message timing)

state_or-once :
    {A : Type 0} (state : A → MemoryStore) (s : MemoryStore)
    → all once s.steps ≡ true
    → (outcome : R A) → OnOk (λ value. all once (state value).steps ≡ true) outcome
    → all once (state_or state s outcome).steps ≡ true
state_or-once state s before (ok value) holds = holds
state_or-once state s before (err _) holds = before

-- When no step of the store has two results of one tool call, no step has two after a call that creates a
-- step, saves the model's answer or adds a message, the results of tools included.
pub apply_step-once :
    (scope : Scope) (call : StepCall) (s : MemoryStore)
    → all once s.steps ≡ true
    → all once (apply_step scope call s).steps ≡ true
unfolding apply_step
apply_step-once scope (create id now run_id idx) s before =
    state_or-once _ s before _ (create_step-once s before scope id now run_id idx)
apply_step-once scope (save_result step_id result) s before =
    state_or-once _ s before _ (save_step_result-once s before scope step_id result)
apply_step-once scope (add now thread_id run_id step_id message timing) s before =
    state_or-once _ s before _
      (add_message-once s before scope now thread_id run_id step_id message timing)
