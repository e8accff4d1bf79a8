-- ===== src/Store/Slots/Removals.antt =====
-- server/src/store/memoryStore.ts, class MemoryStore: the effect on the slots of the removals of
-- threads and the cancelling of runs.
use run_forge.Base.{
  String, str_eq, eq_iff, false, not, ◌&&◌, ◌||◌, none, some, List, [], ◌∷◌, ◌≡◌, refl, sym, ◌∙◌,
  arith, inl, inr, Bool-cases, Option-cases, find_row, set_row, remove_rows, find_row-remove_rows,
  contains-ids_where, any_row-found, contains,
}
use run_forge.Spaces.Access.{opt_eq}
use run_forge.Store.Rows.{Scope, ThreadRow, is_terminal_run_status}
use run_forge.Store.State.{MemoryStore, put_thread, put_run, owned_thread}
use run_forge.Store.Runs.Status.{cancel_run, cancel_each}
use run_forge.Store.Threads.{run_ids_of, purge_thread, has_active_run}
use run_forge.Store.Slots.{
  slot, live, thread_if_live, IsSlotted, unchanged, purged, Effect, Effect-IsSlotted, slot-set_row,
}
use run_forge.Store.Slots.Effects.{
  owned_run-found, keeps-tables, keeps-run, takes-slot, starts-run, has-thread, slot-of, frees-slot,
}
use run_forge.Store.Writes.{
  Write, kept, changes_run, takes_slot, frees_slot, starts_run, changes_thread, opens_thread,
  purges,
}

owned_thread-found :
    (s : MemoryStore) (scope : Scope) (id : String) {thread : ThreadRow}
    → owned_thread s scope id ≡ some thread
    → find_row id s.threads ≡ some thread
unfolding owned_thread
owned_thread-found s scope id e = ground (arith, Option-cases (find_row id s.threads))

-- One round of the loop of `cancelRunsForDeletion`.
pub cancel_run-Effect :
    (s : MemoryStore)
    → IsSlotted s
    → (targets : List String) (now id : String) → Effect s (cancel_run targets now id s)
unfolding cancel_run put_run put_thread is_terminal_run_status
cancel_run-Effect s before targets now id = elim (Option-cases (find_row id s.runs)) [
  | inl missing ↦ rw missing (keeps-tables s s before refl refl)
  | inr (run, found) ↦
      elim (Bool-cases
        (not (contains targets run.thread_id) || is_terminal_run_status run.status)) [
          | inl skipped ↦ rw (found, skipped) (keeps-tables s s before refl refl)
          | inr going ↦ elim (Option-cases (find_row run.thread_id s.threads)) [
            | inl absent ↦ absurd (has-thread s before id found (ground arith) absent)
            | inr (thread, holder) ↦
                rw (found, going, holder)
                  (frees-slot s before id _ run _ thread _ found holder refl refl refl refl)
          ]
        ]
]

pub cancel_each-IsSlotted :
    (s : MemoryStore)
    → IsSlotted s
    → (targets : List String) (now : String) (ids : List String)
    → IsSlotted (cancel_each targets now ids s)
unfolding cancel_each
cancel_each-IsSlotted s before targets now [] = before
cancel_each-IsSlotted s before targets now (id ∷ ids) =
    cancel_each-IsSlotted (cancel_run targets now id s)
      (Effect-IsSlotted s _ before (cancel_run-Effect s before targets now id)) targets now ids

-- A thread with the same slot.
keeps-thread :
    (s s' : MemoryStore)
    → IsSlotted s
    → (id : String) (thread' : ThreadRow) → s'.threads ≡ set_row id thread' s.threads
    → s'.runs ≡ s.runs
    → thread'.executing_run_id ≡ slot s id
    → Effect s s'
unfolding live
keeps-thread s s' before id thread' threads runs same = record {
  shape =
      unchanged (λ t. ground (arith, slot-set_row s s' thread' id threads t, eq_iff id t))
        (λ r. rw runs refl);
  nameless = rw runs before.nameless;
}

absent-slot : (s : MemoryStore) (id : String) → find_row id s.threads ≡ none → slot s id ≡ none
unfolding slot
absent-slot s id fresh = rw fresh refl

-- A thread that has no unfinished run.
idle-live :
    (s : MemoryStore) (id : String)
    → has_active_run s id ≡ false
    → (q : String) → opt_eq (live s q) id ≡ false
unfolding live has_active_run
idle-live s id idle q = elim (Option-cases (find_row q s.runs)) [
  | inl missing ↦ rw missing refl
  | inr (run, found) ↦
      let active =
        any_row-found (λ r. str_eq r.thread_id id && not (is_terminal_run_status r.status)) q s.runs
          found in
      rw found (ground (arith, active))
]

removed-live :
    (s : MemoryStore) (id : String)
    → has_active_run s id ≡ false
    → (q : String) → thread_if_live (find_row q (remove_rows (run_ids_of s id) s.runs)) ≡ live s q
unfolding live run_ids_of
removed-live s id idle q =
    let listed = contains-ids_where (λ run. str_eq run.thread_id id) q s.runs in
    let removed = find_row-remove_rows q (run_ids_of s id) s.runs in
    let idle_run = idle-live s id idle q in
    elim (Option-cases (find_row q s.runs)) [
      | inl missing ↦ ground (arith, listed, removed)
      | inr (run, found) ↦ ground (arith, listed, removed, idle_run)
    ]

purge_thread-Effect :
    (s : MemoryStore)
    → IsSlotted s
    → (id : String) → has_active_run s id ≡ false
    → Effect s (purge_thread id s)
unfolding purge_thread slot live contains
purge_thread-Effect s before id idle = record {
  shape =
      purged id (idle-live s id idle)
        (λ u. ground (arith, find_row-remove_rows u (id ∷ []) s.threads)) (removed-live s id idle);
  nameless = ground (arith, find_row-remove_rows "" (run_ids_of s id) s.runs, before.nameless);
}

-- The effect of each way to write.
pub Write-Effect :
    (scope : Scope) (s s' : MemoryStore) → IsSlotted s → Write scope s s' → Effect s s'
Write-Effect scope s s' before (kept threads runs) = keeps-tables s s' before threads runs
Write-Effect scope s s' before (changes_run id run run' thread found threads runs status same) =
    keeps-run s before id s' run run' (owned_run-found s scope id found).0 threads runs status same
Write-Effect scope s s' before
      (takes_slot id run run' thread thread' found free threads runs slot' going same) =
    let rows = owned_run-found s scope id found in
    takes-slot s before id s' run run' thread thread' rows.0 rows.1 free threads runs slot' going
      same
Write-Effect scope s s' before
      (frees_slot id run run' thread thread' found threads runs slot' over same) =
    let rows = owned_run-found s scope id found in
    frees-slot s before id s' run run' thread thread' rows.0 rows.1 threads runs slot' over
Write-Effect scope s s' before
      (starts_run id run' t thread thread' fresh named found free threads runs slot' going same) =
    let holder = owned_thread-found s scope t found in
    starts-run s before id s' run' t thread thread' fresh named holder free threads runs slot' going
      same
Write-Effect scope s s' before (changes_thread id thread thread' found threads runs slot') =
    let holder = owned_thread-found s scope id found in
    keeps-thread s s' before id thread' threads runs (slot' ∙ sym (slot-of s id holder))
Write-Effect scope s s' before (opens_thread id thread' fresh threads runs slot') =
    keeps-thread s s' before id thread' threads runs (slot' ∙ sym (absent-slot s id fresh))
Write-Effect scope s s' before (purges id thread found idle gone) =
    rw gone (purge_thread-Effect s before id idle)
