-- ===== src/Store/Slots/Effects.antt =====
-- server/src/store/memoryStore.ts, class MemoryStore: the effect of each operation on the slots.
use run_forge.Base.{
  String, str_eq, eq_iff, true, false, none, some, ◌≡◌, ◌≢◌, refl, sym, ◌⊎◌, arith, inl, inr,
  Bool-cases, Option-cases, find_row, set_row, find_row-set_row, truthy,
}
use run_forge.Store.Rows.{Scope, ThreadRow, RunRow, is_terminal_run_status}
use run_forge.Store.State.{MemoryStore, owned_thread, owned_run}
use run_forge.Store.Runs.{taken_by_other}
use run_forge.Store.Runs.Status.{released}
use run_forge.Store.Slots.{
  held, slot, live, thread_if_live, IsSlotted, unchanged, claimed, freed, slot-set_row,
  live-set_row, Effect,
}

-- The row that an owned run is.
pub owned_run-found :
    (s : MemoryStore) (scope : Scope) (id : String) {run : RunRow} {thread : ThreadRow}
    → owned_run s scope id ≡ some (run, thread)
    → (find_row id s.runs ≡ some run) × (find_row run.thread_id s.threads ≡ some thread)
unfolding owned_run owned_thread
owned_run-found s scope id e = ground (arith, Option-cases (find_row id s.runs))

-- Equal slots and unfinished runs.
pub keeps-tables :
    (s s' : MemoryStore) → IsSlotted s → s'.threads ≡ s.threads → s'.runs ≡ s.runs → Effect s s'
unfolding slot live
keeps-tables s s' before threads runs = record {
  shape = unchanged (λ t. rw threads refl) (λ r. rw runs refl);
  nameless = rw runs before.nameless;
}

pub slot-of :
    (s : MemoryStore) (t : String) {thread : ThreadRow}
    → find_row t s.threads ≡ some thread
    → slot s t ≡ thread.executing_run_id
unfolding slot
slot-of s t found = rw found refl

slot-same : (s s' : MemoryStore) → s'.threads ≡ s.threads → (t : String) → slot s' t ≡ slot s t
unfolding slot
slot-same s s' threads t = rw threads refl

live-of :
    (s : MemoryStore) (id : String) {run : RunRow}
    → find_row id s.runs ≡ some run
    → live s id ≡ thread_if_live (some run)
unfolding live
live-of s id found = rw found refl

module _ (s : MemoryStore) (before : IsSlotted s) (id : String) where
  named : {run : RunRow} → find_row id s.runs ≡ some run → str_eq id "" ≡ false
  named {run} found = ground (arith, eq_iff id "", before.nameless)

  set_row-nameless :
      (run : RunRow) → str_eq id "" ≡ false → find_row "" (set_row id run s.runs) ≡ none
  set_row-nameless run e = rw (find_row-set_row "" id run s.runs, e) before.nameless

  absent-live : find_row id s.runs ≡ none → live s id ≡ none
  unfolding live
  absent-live absent = rw absent refl

  known-live :
      (run : RunRow)
      → find_row id s.runs ≡ some run
      → (live s id ≡ none) ⊎ (live s id ≡ some run.thread_id)
  unfolding live
  known-live run found = elim (Bool-cases (is_terminal_run_status run.status)) [
    | inl over ↦ inl (rw (found, over) refl)
    | inr going ↦ inr (rw (found, going) refl)
  ]

  -- The thread of an unfinished run exists.
  pub has-thread :
      {run : RunRow}
      → find_row id s.runs ≡ some run
      → is_terminal_run_status run.status ≡ false
      → find_row run.thread_id s.threads ≢ none
  unfolding slot live
  has-thread {run} found going absent = ground (arith, held before run.thread_id id)

  -- A run keeps its status and thread.
  pub keeps-run :
      (s' : MemoryStore) (run run' : RunRow)
      → find_row id s.runs ≡ some run
      → s'.threads ≡ s.threads
      → s'.runs ≡ set_row id run' s.runs
      → run'.status ≡ run.status
      → run'.thread_id ≡ run.thread_id
      → Effect s s'
  keeps-run s' run run' found threads runs status same = record {
    shape =
        unchanged (slot-same s s' threads)
          (λ q. ground (arith, live-set_row s s' run' id runs q, live-of s id found, eq_iff id q));
    nameless = rw runs (set_row-nameless run' (named found));
  }

  -- An unfinished run of a thread takes its slot.
  pub takes-slot :
      (s' : MemoryStore) (run run' : RunRow) (thread thread' : ThreadRow)
      → find_row id s.runs ≡ some run
      → find_row run.thread_id s.threads ≡ some thread
      → taken_by_other thread.executing_run_id id ≡ false
      → s'.threads ≡ set_row run.thread_id thread' s.threads
      → s'.runs ≡ set_row id run' s.runs
      → thread'.executing_run_id ≡ some id
      → is_terminal_run_status run'.status ≡ false
      → run'.thread_id ≡ run.thread_id
      → Effect s s'
  takes-slot s' run run' thread thread' found holder free threads runs slot' going same = record {
    shape =
        claimed run.thread_id id (rw (slot-of s run.thread_id holder) free) (known-live run found)
          (λ u. rw (sym slot') (slot-set_row s s' thread' run.thread_id threads u))
          (λ q. ground (arith, live-set_row s s' run' id runs q));
    nameless = rw runs (set_row-nameless run' (named found));
  }

  -- A run that is finished releases the slot.
  pub frees-slot :
      (s' : MemoryStore) (run run' : RunRow) (thread thread' : ThreadRow)
      → find_row id s.runs ≡ some run
      → find_row run.thread_id s.threads ≡ some thread
      → s'.threads ≡ set_row run.thread_id thread' s.threads
      → s'.runs ≡ set_row id run' s.runs
      → thread'.executing_run_id ≡ released thread.executing_run_id id
      → is_terminal_run_status run'.status ≡ true
      → Effect s s'
  frees-slot s' run run' thread thread' found holder threads runs slot' over = record {
    shape =
        freed run.thread_id id (known-live run found)
          (λ u. ground (
            arith,
            slot-set_row s s' thread' run.thread_id threads u,
            slot-of s run.thread_id holder,
            eq_iff run.thread_id u,
          ))
          (λ q. ground (arith, live-set_row s s' run' id runs q));
    nameless = rw runs (set_row-nameless run' (named found));
  }

  -- A new run starts in a thread that executes none.
  pub starts-run :
      (s' : MemoryStore) (run' : RunRow) (t : String) (thread thread' : ThreadRow)
      → find_row id s.runs ≡ none
      → str_eq id "" ≡ false
      → find_row t s.threads ≡ some thread
      → truthy thread.executing_run_id ≡ false
      → s'.threads ≡ set_row t thread' s.threads
      → s'.runs ≡ set_row id run' s.runs
      → thread'.executing_run_id ≡ some id
      → is_terminal_run_status run'.status ≡ false
      → run'.thread_id ≡ t
      → Effect s s'
  starts-run s' run' t thread thread' fresh name holder free threads runs slot' going same =
      record {
        shape =
            claimed t id (ground (arith, slot-of s t holder)) (inl (absent-live fresh))
              (λ u. rw (sym slot') (slot-set_row s s' thread' t threads u))
              (λ q. ground (arith, live-set_row s s' run' id runs q));
        nameless = rw runs (set_row-nameless run' name);
      }
