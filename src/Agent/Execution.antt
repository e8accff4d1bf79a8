-- ===== src/Agent/Execution.antt =====
-- server/src/agent/executionControl.ts: the executions of the process, by run.
-- An execution is an object that its registrations' closures share, so it stays in the list when it
-- leaves the map: `listed` says whether the map holds it. A registration has a key; `done` says that the
-- promise is resolved, `aborted` that the signal is. The messages of errors are constructors.
pub mod Invariant
pub mod Listing
pub mod Runs
pub mod Consistency
pub mod Holders
pub mod Shutdown
mod Tests
use run_forge.Base.{
  ℕ, ◌+◌, ◌-◌, String, str_eq, Bool, true, false, not, ◌&&◌, ◌||◌, Option, none, some, List, [],
  ◌∷◌, ◌==◌, if◌then◌else◌, truthy, contains, Result, ok, err, ◌>>=◌, map,
}

-- The state of a registration's closure.
pub record Registration : Type 0 where
  pub key : ℕ
  pub main : Bool
  pub finished : Bool

pub record ActiveRunExecution : Type 0 where
  pub run_id : String
  pub thread_id : Option String
  pub holders : ℕ
  pub main_active : Bool
  pub aborted : Bool
  pub done : Bool
  pub listed : Bool
  pub registrations : List Registration

pub record Executions : Type 0 where
  pub entries : List ActiveRunExecution
  pub accepting : Bool
  pub shutting_down : Bool
  pub next_key : ℕ

abbrev pub no_executions : Executions
no_executions = record { entries = []; accepting = true; shutting_down = false; next_key = 0 }

pub data ExecutionError : Type 0 where
  already_active already_cancelled not_accepting no_execution other_thread : ExecutionError

abbrev pub abort_entry : ActiveRunExecution → ActiveRunExecution
abort_entry e = record e { aborted = true }

-- `stopAcceptingNewRunExecutions`
unfoldable pub stop_accepting : Executions → Executions
stop_accepting s = record s {
  accepting = false;
  shutting_down = true;
  entries = map (λ e. if e.listed then abort_entry e else e) s.entries;
}

abbrev pub is_entry : String → ActiveRunExecution → Bool
is_entry run_id e = e.listed && str_eq e.run_id run_id

-- `activeExecutions.get`
unfoldable pub find_entry : String → List ActiveRunExecution → Option ActiveRunExecution
find_entry run_id [] = none
find_entry run_id (e ∷ es) = if is_entry run_id e then some e else find_entry run_id es

-- The entry that the map holds for a run is changed in place.
unfoldable pub update_entry :
    String
    → (ActiveRunExecution → ActiveRunExecution)
    → List ActiveRunExecution
    → List ActiveRunExecution
update_entry run_id f [] = []
update_entry run_id f (e ∷ es) =
    if is_entry run_id e then f e ∷ es else e ∷ update_entry run_id f es

-- `registration`: its guards, and what it does to the entry.
unfoldable pub may_register : Bool → ActiveRunExecution → Result ExecutionError (Unit {0})
may_register main e =
    if main && e.main_active
    then err already_active
    else if main && e.aborted
    then err already_cancelled
    else ok tt

unfoldable pub add_registration : ℕ → Bool → ActiveRunExecution → ActiveRunExecution
add_registration key main e = record e {
  main_active = main || e.main_active;
  holders = e.holders + 1;
  registrations = record { key = key; main = main; finished = false } ∷ e.registrations;
}

abbrev pub new_entry : String → ActiveRunExecution
new_entry run_id = record {
  run_id = run_id;
  thread_id = none;
  holders = 0;
  main_active = false;
  aborted = false;
  done = false;
  listed = true;
  registrations = [];
}

abbrev pub register_existing :
    String → Bool → ActiveRunExecution → Executions → Result ExecutionError (ℕ × Executions)
register_existing run_id main e s = elim (may_register main e) [
  | err x ↦ err x
  | ok _ ↦ ok (
    s.next_key,
    record s {
      entries = update_entry run_id (add_registration s.next_key main) s.entries;
      next_key = s.next_key + 1;
    },
  )
]

-- `registerRunExecution`; the result's key is the registration.
unfoldable pub register : String → Executions → Result ExecutionError (ℕ × Executions)
unfolding may_register
register run_id s = elim (find_entry run_id s.entries) [
  | some e ↦ register_existing run_id true e s
  | none ↦
      if not s.accepting
      then err not_accepting
      else ok (
        s.next_key,
        record s {
          entries = add_registration s.next_key true (new_entry run_id) ∷ s.entries;
          next_key = s.next_key + 1;
        },
      )
]

-- `retainRunExecution`
unfoldable pub retain : String → Executions → Result ExecutionError (ℕ × Executions)
unfolding may_register
retain run_id s = elim (find_entry run_id s.entries) [
  | none ↦ err no_execution
  | some e ↦ register_existing run_id false e s
]

-- Whether the registration is the main one, if it is not finished yet.
unfoldable pub find_open : ℕ → List Registration → Option Bool
find_open key [] = none
find_open key (r ∷ rs) =
    let rest = find_open key rs in if r.key == key && not r.finished then some r.main else rest

unfoldable pub close_registration : ℕ → List Registration → List Registration
close_registration key [] = []
close_registration key (r ∷ rs) =
    let rest = close_registration key rs in
    if r.key == key && not r.finished then record r { finished = true } ∷ rs else r ∷ rest

-- The last holder takes the entry from the map and resolves its promise.
unfoldable pub settle : ActiveRunExecution → ActiveRunExecution
settle e =
    if not (e.holders == 0) || not e.listed then e else record e { listed = false; done = true }

unfoldable pub finish_on : ℕ → ActiveRunExecution → ActiveRunExecution
unfolding settle close_registration find_open
finish_on key e = elim (find_open key e.registrations) [
  | none ↦ e
  | some main ↦ settle (record e {
    registrations = close_registration key e.registrations;
    main_active = if main then false else e.main_active;
    holders = e.holders - 1;
  })
]

-- `finish` of a registration.
unfoldable pub finish : ℕ → Executions → Executions
unfolding finish_on
finish key s = record s { entries = map (finish_on key) s.entries }

abbrev pub owns : ℕ → List Registration → Bool
owns key [] = false
owns key (r ∷ rs) = r.key == key || owns key rs

abbrev pub bound_elsewhere : String → ActiveRunExecution → Bool
bound_elsewhere thread_id e = elim e.thread_id [
  | none ↦ false
  | some t ↦ not (str_eq t "") && not (str_eq t thread_id)
]

-- `bindThread` of a registration, on the entry that the registration belongs to.
unfoldable pub bind_entries :
    ℕ → String → List ActiveRunExecution → Result ExecutionError (List ActiveRunExecution)
bind_entries key thread_id [] = ok []
bind_entries key thread_id (e ∷ es) =
    let rest = bind_entries key thread_id es in
    if not (owns key e.registrations)
    then (rest >>= λ bound. ok (e ∷ bound))
    else if bound_elsewhere thread_id e
    then err other_thread
    else ok (record e { thread_id = some thread_id } ∷ es)

unfoldable pub bind_thread : ℕ → String → Executions → Result ExecutionError Executions
unfolding bind_entries
bind_thread key thread_id s =
    bind_entries key thread_id s.entries >>= λ es. ok (record s { entries = es })

-- `abortRunExecution`
unfoldable pub abort_run : String → Executions → Executions × Bool
unfolding update_entry find_entry
abort_run run_id s = elim (find_entry run_id s.entries) [
  | none ↦ (s, false)
  | some _ ↦ (record s { entries = update_entry run_id abort_entry s.entries }, true)
]

abbrev pub is_bound_to : List String → ActiveRunExecution → Bool
is_bound_to thread_ids e = elim e.thread_id [
  | none ↦ false
  | some t ↦ not (str_eq t "") && contains thread_ids t
]

-- `abortThreadExecutions`, with the runs that it aborts.
unfoldable pub abort_threads :
    List String → List ActiveRunExecution → List ActiveRunExecution × List String
abort_threads thread_ids [] = ([], [])
abort_threads thread_ids (e ∷ es) =
    let rest = abort_threads thread_ids es in
    if e.listed && is_bound_to thread_ids e
    then (abort_entry e ∷ rest.0, e.run_id ∷ rest.1)
    else (e ∷ rest.0, rest.1)
