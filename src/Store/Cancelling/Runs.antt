-- ===== src/Store/Cancelling/Runs.antt =====
-- server/src/store/memoryStore.ts, class MemoryStore, `cancelRunsForDeletion`.
use run_forge.Base.{
  String, str_eq, eq_iff, Bool, true, false, not, ◌&&◌, ◌||◌, Option, none, some, List, [], ◌∷◌,
  if◌then◌else◌, contains, ◌≡◌, refl, sym, ap, ◌∙◌, arith, inl, inr, Bool-cases, Option-cases,
  holds_row, keys, find_row, set_row, contains-keys, find_row-set_row,
}
use run_forge.Store.Rows.{RunRow, is_terminal_run_status}
use run_forge.Store.State.{MemoryStore, put_run, put_thread}
use run_forge.Store.Runs.Status.{cancel_run, cancel_each, cancel_runs_for_deletion}
use run_forge.Store.Tenants.{any_active_run}
use run_forge.Store.Tenants.Erasure.{no_row}

abbrev is_active_in : List String → RunRow → Bool
is_active_in targets run = contains targets run.thread_id && not (is_terminal_run_status run.status)

module _ (targets : List String) (now : String) where
  pub active : MemoryStore → String → Bool
  active s r = holds_row (is_active_in targets) (find_row r s.runs)

  -- Nothing to cancel.
  skip-active :
      (s : MemoryStore) (id r : String)
      → active s id ≡ false
      → active s r ≡ (if str_eq id r then false else active s r)
  skip-active s id r quiet = elim (Bool-cases (str_eq id r)) [
    | inl same ↦ rw same (ap (active s) (sym ((eq_iff id r).0 same)) ∙ quiet)
    | inr other ↦ rw other refl
  ]

  -- A run that is over is set.
  over-active :
      (s s' : MemoryStore) (id : String) (run' : RunRow)
      → s'.runs ≡ set_row id run' s.runs
      → is_terminal_run_status run'.status ≡ true
      → (r : String) → active s' r ≡ (if str_eq id r then false else active s r)
  unfolding active
  over-active s s' id run' set over r = elim (Bool-cases (str_eq id r)) [
    | inl same ↦ rw (set, find_row-set_row r id run' s.runs, same) (ground (arith, over))
    | inr other ↦ rw (set, find_row-set_row r id run' s.runs, other) refl
  ]

  pub active-of :
      (s : MemoryStore) (id : String) (o : Option RunRow)
      → find_row id s.runs ≡ o
      → active s id ≡ holds_row (is_active_in targets) o
  unfolding active
  active-of s id o found = rw found refl

  cancel_run-active :
      (s : MemoryStore) (id r : String)
      → active (cancel_run targets now id s) r ≡ (if str_eq id r then false else active s r)
  unfolding cancel_run put_run put_thread is_terminal_run_status
  cancel_run-active s id r = elim (Option-cases (find_row id s.runs)) [
    | inl missing ↦ rw missing (skip-active s id r (active-of s id none missing))
    | inr (run, found) ↦
        elim (Bool-cases
          (not (contains targets run.thread_id) || is_terminal_run_status run.status)) [
            | inl skipped ↦
                rw (found, skipped)
                  (skip-active s id r (active-of s id (some run) found ∙ ground (arith, skipped)))
            | inr taken ↦ elim (Option-cases (find_row run.thread_id s.threads)) [
              | inl absent ↦ rw (found, taken, absent) (over-active s _ id _ refl refl r)
              | inr (thread, holder) ↦ rw (found, taken, holder) (over-active s _ id _ refl refl r)
            ]
          ]
  ]

  cancel_each-active :
      (ids : List String) (s : MemoryStore) (r : String)
      → active (cancel_each targets now ids s) r ≡ (if contains ids r then false else active s r)
  unfolding cancel_each contains
  cancel_each-active [] s r = refl
  cancel_each-active (id ∷ ids) s r =
      ground
        (arith, cancel_each-active ids (cancel_run targets now id s) r, cancel_run-active s id r)

  uncovered :
      (s : MemoryStore) (r : String)
      → (if contains (keys s.runs) r then false else active s r) ≡ false
  unfolding active
  uncovered s r = elim (Option-cases (find_row r s.runs)) [
    | inl missing ↦ ground (arith, active-of s r none missing)
    | inr (run, found) ↦ ground (arith, contains-keys r s.runs found)
  ]

  -- After the runs of some threads are cancelled for a deletion, no run of them is unfinished, so that
  -- this check of the deletion passes.
  pub cancel_runs_for_deletion-quiet :
      (s : MemoryStore) → any_active_run (cancel_runs_for_deletion s targets now) targets ≡ false
  unfolding any_active_run cancel_runs_for_deletion active
  cancel_runs_for_deletion-quiet s =
      no_row (is_active_in targets) (cancel_each targets now (keys s.runs) s).runs
        λ r. cancel_each-active (keys s.runs) s r ∙ uncovered s r
