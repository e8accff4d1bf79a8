-- ===== src/Store/Foreign.antt =====
-- server/src/store/memoryStore.ts, class MemoryStore, `threadOwnedBy` and `runOwnedBy`: what a call of
-- one user leaves of the thread of another.
use run_forge.Base.{
  String, str_eq, eq_iff, true, false, Option, none, some, [], ◌∷◌, contains, if◌then◌else◌, ◌≡◌,
  refl, ap, ◌∙◌, arith, inl, inr, Bool-cases, Option-cases, find_row, set_row, find_row-set_row,
  find_row-remove_rows, contains-ids_where, Value, Fields,
}
use run_forge.Store.Rows.{Scope, ThreadRow, RunRow}
use run_forge.Store.State.{MemoryStore, owns_thread, owned_thread, owned_run}
use run_forge.Store.Threads.{run_ids_of, purge_thread}
use run_forge.Store.Writes.{
  Write, kept, changes_run, takes_slot, frees_slot, starts_run, changes_thread, opens_thread,
  purges,
}
use run_forge.Store.Calls.{ScopedCall, apply_scoped, IsFresh}
use run_forge.Store.Calls.Writes.{apply_scoped-Write}

abbrev if_in : String → Option RunRow → Option RunRow
if_in thread_id none = none
if_in thread_id (some run) = if str_eq run.thread_id thread_id then some run else none

-- A run, if it is one of the thread.
unfoldable pub run_in : MemoryStore → String → String → Option RunRow
run_in s thread_id id = if_in thread_id (find_row id s.runs)

-- The thread and its runs are the same.
record IsKept (s s' : MemoryStore) (j : String) : Type 0 where
  thread : find_row j s'.threads ≡ find_row j s.threads
  runs : (r : String) → run_in s' j r ≡ run_in s j r

owned_thread-found :
    (s : MemoryStore) (scope : Scope) (id : String) {thread : ThreadRow}
    → owned_thread s scope id ≡ some thread
    → (find_row id s.threads ≡ some thread) × (owns_thread scope thread ≡ true)
unfolding owned_thread
owned_thread-found s scope id e = ground (arith, Option-cases (find_row id s.threads))

owned_run-found :
    (s : MemoryStore) (scope : Scope) (id : String) {run : RunRow} {thread : ThreadRow}
    → owned_run s scope id ≡ some (run, thread)
    → (find_row id s.runs ≡ some run) × (owned_thread s scope run.thread_id ≡ some thread)
unfolding owned_run
owned_run-found s scope id e = ground (arith, Option-cases (find_row id s.runs))

module _ (scope : Scope) (s s' : MemoryStore) (j : String) {foreign : ThreadRow}
    (found : find_row j s.threads ≡ some foreign) (theirs : owns_thread scope foreign ≡ false) where
  -- The thread is not one that the user owns.
  other :
      (id : String) {thread : ThreadRow}
      → owned_thread s scope id ≡ some thread
      → str_eq id j ≡ false
  other id {thread} mine = ground (arith, owned_thread-found s scope id mine, eq_iff id j)

  kept-thread :
      (id : String) (thread' : ThreadRow)
      → s'.threads ≡ set_row id thread' s.threads
      → str_eq id j ≡ false
      → find_row j s'.threads ≡ find_row j s.threads
  kept-thread id thread' threads apart =
      rw (threads, find_row-set_row j id thread' s.threads, apart) refl

  kept-runs : s'.runs ≡ s.runs → (r : String) → run_in s' j r ≡ run_in s j r
  unfolding run_in
  kept-runs runs r = rw runs refl

  -- A run of another thread is set.
  set-runs :
      (id : String) (run' : RunRow)
      → s'.runs ≡ set_row id run' s.runs
      → str_eq run'.thread_id j ≡ false
      → run_in s j id ≡ none
      → (r : String) → run_in s' j r ≡ run_in s j r
  unfolding run_in
  set-runs id run' runs apart before r = elim (Bool-cases (str_eq id r)) [
    | inl same ↦ rw (runs, find_row-set_row r id run' s.runs) (ground (arith, eq_iff id r))
    | inr differs ↦ rw (runs, find_row-set_row r id run' s.runs, differs) refl
  ]

  not-in :
      (id : String) {run : RunRow}
      → find_row id s.runs ≡ some run
      → str_eq run.thread_id j ≡ false
      → run_in s j id ≡ none
  unfolding run_in
  not-in id here apart = rw (here, apart) refl

  absent-in : (id : String) → find_row id s.runs ≡ none → run_in s j id ≡ none
  unfolding run_in
  absent-in id fresh = rw fresh refl

  purged-runs :
      (id : String)
      → str_eq id j ≡ false
      → s' ≡ purge_thread id s
      → (r : String) → run_in s' j r ≡ run_in s j r
  unfolding run_in purge_thread run_ids_of
  purged-runs id apart gone r =
      let removed = find_row-remove_rows r (run_ids_of s id) s.runs in
      let listed = contains-ids_where (λ run. str_eq run.thread_id id) r s.runs in
      rw gone (elim (Option-cases (find_row r s.runs)) [
        | inl missing ↦ ground (arith, removed, listed)
        | inr (run, here) ↦
            ground
              (arith, removed, listed, eq_iff run.thread_id id, eq_iff run.thread_id j, eq_iff id j)
      ])

  purged-thread :
      (id : String)
      → str_eq id j ≡ false
      → s' ≡ purge_thread id s
      → find_row j s'.threads ≡ find_row j s.threads
  unfolding purge_thread contains
  purged-thread id apart gone = rw (gone, find_row-remove_rows j (id ∷ []) s.threads, apart) refl

  -- A run of the user's is replaced.
  own-runs :
      (id : String) {run : RunRow} {thread : ThreadRow} (run' : RunRow)
      → owned_run s scope id ≡ some (run, thread)
      → s'.runs ≡ set_row id run' s.runs
      → run'.thread_id ≡ run.thread_id
      → (str_eq run.thread_id j ≡ false) × ((r : String) → run_in s' j r ≡ run_in s j r)
  own-runs id {run} run' mine runs same =
      let rows = owned_run-found s scope id mine in
      let apart = other run.thread_id rows.1 in
      (apart, set-runs id run' runs (rw same apart) (not-in id rows.0 apart))

  Write-IsKept : Write scope s s' → IsKept s s' j
  Write-IsKept (kept threads runs) = record {
    thread = ap (find_row j) threads;
    runs = kept-runs runs;
  }
  Write-IsKept (changes_run id run run' thread mine threads runs status same) = record {
    thread = ap (find_row j) threads;
    runs = (own-runs id run' mine runs same).1;
  }
  Write-IsKept (takes_slot id run run' thread thread' mine free threads runs slot' going same) =
      let own = own-runs id run' mine runs same in
      record { thread = kept-thread run.thread_id thread' threads own.0; runs = own.1 }
  Write-IsKept (frees_slot id run run' thread thread' mine threads runs slot' over same) =
      let own = own-runs id run' mine runs same in
      record { thread = kept-thread run.thread_id thread' threads own.0; runs = own.1 }
  Write-IsKept
        (starts_run id run' t thread thread' fresh named mine free threads runs slot' going same) =
      let apart = other t mine in
      record {
        thread = kept-thread t thread' threads apart;
        runs = set-runs id run' runs (rw same apart) (absent-in id fresh);
      }
  Write-IsKept (changes_thread id thread thread' mine threads runs slot') = record {
    thread = kept-thread id thread' threads (other id mine);
    runs = kept-runs runs;
  }
  Write-IsKept (opens_thread id thread' fresh threads runs slot') = record {
    thread = kept-thread id thread' threads (ground (arith, eq_iff id j));
    runs = kept-runs runs;
  }
  Write-IsKept (purges id thread mine idle gone) =
      let apart = other id mine in
      record { thread = purged-thread id apart gone; runs = purged-runs id apart gone }

-- A call of a user on threads and runs, with a fresh new id, leaves a thread that is not the user's
-- (another tenant's, another user's, or without a user) as it is, and every run of that thread.
pub apply_scoped-foreign :
    (media_refs_from_user_text : String → Value) (config : Fields) (scope : Scope)
    (call : ScopedCall) (s : MemoryStore) (j : String) (foreign : ThreadRow)
    → IsFresh call s
    → find_row j s.threads ≡ some foreign
    → owns_thread scope foreign ≡ false
    → (find_row j (apply_scoped media_refs_from_user_text config scope call s).threads
        ≡ some foreign)
      × ((r : String)
          → run_in (apply_scoped media_refs_from_user_text config scope call s) j r ≡ run_in s j r)
apply_scoped-foreign refs config scope call s j foreign fresh found theirs =
    let write = apply_scoped-Write refs config scope call s fresh in
    let unchanged = Write-IsKept scope s _ j found theirs write in
    (unchanged.thread ∙ found, unchanged.runs)
