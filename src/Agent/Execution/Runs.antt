-- ===== src/Agent/Execution/Runs.antt =====
-- The calls that other code makes on the executions of the process.
use run_forge.Base.{
  ℕ, String, ◌≡◌, refl, Bool, ◌&&◌, List, [], ◌∷◌, if◌then◌else◌, arith, map, Result, ok, err,
}
use run_forge.Agent.Execution.{
  ActiveRunExecution, Executions, ExecutionError, no_executions, stop_accepting, register, retain,
  finish, bind_thread, abort_run, abort_threads, abort_entry, is_bound_to,
}

pub data Call : Type 0 where
  register_call retain_call abort_run_call : String → Call
  bind_call : ℕ → String → Call
  finish_call : ℕ → Call
  abort_threads_call : List String → Call
  stop_call : Call

abbrev pub registered : Executions → Result ExecutionError (ℕ × Executions) → Executions
registered s (ok (_, s')) = s'
registered s (err _) = s

abbrev pub bound : Executions → Result ExecutionError Executions → Executions
bound s (ok s') = s'
bound s (err _) = s

-- A call that is refused changes nothing.
unfoldable pub step : Call → Executions → Executions
step (register_call run_id) s = registered s (register run_id s)
step (retain_call run_id) s = registered s (retain run_id s)
step (abort_run_call run_id) s = (abort_run run_id s).0
step (bind_call key thread_id) s = bound s (bind_thread key thread_id s)
step (finish_call key) s = finish key s
step (abort_threads_call ids) s = record s { entries = (abort_threads ids s.entries).0 }
step stop_call s = stop_accepting s

unfoldable pub run : List Call → Executions → Executions
unfolding step
run [] s = s
run (c ∷ cs) s = run cs (step c s)

abbrev pub started : List Call → Executions
started cs = run cs no_executions

unfoldable pub aborted_if :
    (p : ActiveRunExecution → Bool) → ActiveRunExecution → ActiveRunExecution
aborted_if p e = if p e then abort_entry e else e

pub abort_threads-map :
    (ids : List String) (es : List ActiveRunExecution)
    → (abort_threads ids es).0 ≡ map (aborted_if (λ e. e.listed && is_bound_to ids e)) es
unfolding abort_threads aborted_if
abort_threads-map ids [] = refl
abort_threads-map ids (e ∷ es) = ground (arith, abort_threads-map ids es)
