-- ===== src/Agent/Execution/Shutdown.antt =====
-- What the end of the process does to the executions.
use run_forge.Base.{
  ℕ, String, ◌≡◌, refl, Bool, true, false, not, ◌&&◌, some, List, [], ◌∷◌, if◌then◌else◌, arith,
  All, map, Option-cases, Bool-cases, inl, inr, err, Result-cases, OnOk, OnOk-bind, OnOk-value,
}
use run_forge.Agent.Execution.{
  ActiveRunExecution, Executions, ExecutionError, not_accepting, already_active, already_cancelled,
  stop_accepting, find_entry, may_register, add_registration, register, retain, finish_on, settle,
  finish, bind_entries, bind_thread, abort_run, abort_entry, owns, bound_elsewhere,
}
use run_forge.Agent.Execution.Invariant.{update_entry-All, map-All}
use run_forge.Agent.Execution.Runs.{
  Call, register_call, retain_call, abort_run_call, bind_call, finish_call, abort_threads_call,
  stop_call, registered, step, run, started, aborted_if, abort_threads-map,
}

-- An execution of the map is aborted.
abbrev IsStopped : ActiveRunExecution → Type 0
IsStopped e = (e.listed && not e.aborted) ≡ false

record IsShut (s : Executions) : Type 0 where
  closed : s.accepting ≡ false
  stopped : All IsStopped s.entries

find_entry-IsStopped :
    (run_id : String) (es : List ActiveRunExecution) {e : ActiveRunExecution}
    → All IsStopped es
    → find_entry run_id es ≡ some e
    → e.aborted ≡ true
unfolding find_entry
find_entry-IsStopped run_id [] h found = cc
find_entry-IsStopped run_id (x ∷ es) {e} (h, hs) found =
    ground (arith, find_entry-IsStopped run_id es {e = e} hs)

-- A stopped set of executions admits no main executor.
register-refused :
    (run_id : String) (s : Executions)
    → IsShut s
    → (x : ExecutionError) × (register run_id s ≡ err x)
unfolding register may_register
register-refused run_id s shut = elim (Option-cases (find_entry run_id s.entries)) [
  | inl missing ↦ (not_accepting, ground (arith, shut.closed))
  | inr (e, found) ↦ elim (Bool-cases e.main_active) [
    | inl active ↦ (already_active, ground arith)
    | inr idle ↦ (
      already_cancelled,
      ground (arith, find_entry-IsStopped run_id s.entries shut.stopped found),
    )
  ]
]

aborted_if-IsStopped :
    (p : ActiveRunExecution → Bool) (e : ActiveRunExecution)
    → IsStopped e
    → IsStopped (aborted_if p e)
unfolding aborted_if
aborted_if-IsStopped p e h = ground arith

finish_on-IsStopped : (key : ℕ) (e : ActiveRunExecution) → IsStopped e → IsStopped (finish_on key e)
unfolding finish_on settle
finish_on-IsStopped key e h = ground arith

bind_entries-IsStopped :
    (key : ℕ) (thread_id : String) (es : List ActiveRunExecution)
    → All IsStopped es
    → OnOk (All IsStopped) (bind_entries key thread_id es)
unfolding bind_entries
bind_entries-IsStopped key thread_id [] h = tt
bind_entries-IsStopped key thread_id (e ∷ es) (h, hs) =
    elim (Bool-cases (owns key e.registrations)) [
      | inl mine ↦ elim (Bool-cases (bound_elsewhere thread_id e)) [
        | inl taken ↦ rw (mine, taken, bind_entries) tt
        | inr free ↦ rw (mine, free, bind_entries) (h, hs)
      ]
      | inr other ↦
          rw (other, bind_entries)
            (OnOk-bind (All IsStopped) (bind_entries key thread_id es) _ λ es' e'.
              (h, OnOk-value (All IsStopped) (bind_entries-IsStopped key thread_id es hs) e'))
    ]

stop_accepting-IsShut : (s : Executions) → IsShut (stop_accepting s)
unfolding stop_accepting
stop_accepting-IsShut s = record { closed = refl; stopped = each s.entries }
  where
    each :
        (es : List ActiveRunExecution)
        → All IsStopped (map (λ e. if e.listed then abort_entry e else e) es)
    each [] = tt
    each (e ∷ es) = (ground arith, each es)

retain-IsShut :
    (run_id : String) (s : Executions) → IsShut s → IsShut (registered s (retain run_id s))
unfolding retain may_register add_registration
retain-IsShut run_id s shut = elim (Option-cases (find_entry run_id s.entries)) [
  | inl missing ↦ rw (missing, retain) shut
  | inr (e, found) ↦
      rw (found, retain)
        (record {
          closed = shut.closed;
          stopped =
              update_entry-All IsStopped run_id (add_registration s.next_key false) s.entries
                (λ _ _ h. h) shut.stopped;
        })
]

abort_run-IsShut : (run_id : String) (s : Executions) → IsShut s → IsShut (abort_run run_id s).0
unfolding abort_run
abort_run-IsShut run_id s shut = elim (Option-cases (find_entry run_id s.entries)) [
  | inl missing ↦ rw (missing, abort_run) shut
  | inr (e, found) ↦
      rw (found, abort_run)
        (record {
          closed = shut.closed;
          stopped =
              update_entry-All IsStopped run_id abort_entry s.entries (λ _ _ h. ground arith)
                shut.stopped;
        })
]

step-IsShut : (c : Call) (s : Executions) → IsShut s → IsShut (step c s)
unfolding step finish bind_thread
step-IsShut (register_call run_id) s shut =
    let (x, refused) = register-refused run_id s shut in rw (refused, step) shut
step-IsShut (retain_call run_id) s shut = retain-IsShut run_id s shut
step-IsShut (abort_run_call run_id) s shut = abort_run-IsShut run_id s shut
step-IsShut (bind_call key thread_id) s shut =
    elim (Result-cases (bind_entries key thread_id s.entries)) [
      | inl (x, refused) ↦ rw (refused, step) shut
      | inr (es, done) ↦
          rw (done, step)
            (record {
              closed = shut.closed;
              stopped =
                  OnOk-value (All IsStopped)
                    (bind_entries-IsStopped key thread_id s.entries shut.stopped) done;
            })
    ]
step-IsShut (finish_call key) s shut = record {
  closed = shut.closed;
  stopped = map-All IsStopped (finish_on key) s.entries (finish_on-IsStopped key) shut.stopped;
}
step-IsShut (abort_threads_call ids) s shut = record {
  closed = shut.closed;
  stopped =
      rw (abort_threads-map ids s.entries)
        (map-All IsStopped (aborted_if _) s.entries (aborted_if-IsStopped _) shut.stopped);
}
step-IsShut stop_call s shut = stop_accepting-IsShut s

run-IsShut : (cs : List Call) (s : Executions) → IsShut s → IsShut (run cs s)
unfolding run
run-IsShut [] s shut = shut
run-IsShut (c ∷ cs) s shut = run-IsShut cs (step c s) (step-IsShut c s shut)

-- Once the process has stopped accepting executions, whatever calls came before or come after, the
-- registration of a main executor is refused for every run.
pub stop_accepting-excludes :
    (earlier later : List Call) (run_id : String)
    → (x : ExecutionError) × (register run_id (run later (stop_accepting (started earlier)))
        ≡ err x)
stop_accepting-excludes earlier later run_id =
    let after = stop_accepting (started earlier) in
    register-refused run_id (run later after)
      (run-IsShut later after (stop_accepting-IsShut (started earlier)))
