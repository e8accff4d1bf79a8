-- ===== src/Deletion/Tests.antt =====
-- Runs of the deletion gate, and its theorems at concrete inputs.
use run_forge.Base.{◌≡◌, refl, true, false, none, some, List, [], ◌∷◌, ok, err, contains}
use run_forge.Deletion.Gate.{
  DeletionScope, ActiveDeletion, DeletionGate, deletion_in_progress, empty_gate, blocks, is_blocked,
  new_deletion, begin, add_ids, add_threads, enter, finish_operation, pending_of, all_resolved,
}
use run_forge.Deletion.Gate.Blocking.{
  Event, enter_event, finish_operation_event, add_threads_event, step, run,
}
use run_forge.Deletion.Gate.Drain.{AreOutside}
use run_forge.Deletion.Gate.Window.{
  tenant_scope, space_scope, thread_scope, registered, deletion_of, begin_excludes, drained,
  add_threads-narrows,
}

abbrev in_space : DeletionScope
in_space = record { tenant_id = "t1"; space_id = some "s1"; thread_id = none }

abbrev in_thread : DeletionScope
in_thread = record { tenant_id = "t1"; space_id = none; thread_id = some "th1" }

-- A thread's operation runs, and a deletion of its space begins.
abbrev earlier : List Event
earlier = enter_event in_thread ∷ []

abbrev begun : DeletionGate
begun = record {
  active = new_deletion 1 in_space ∷ [];
  operations =
      record { key = 0; scope = in_thread; listed = true; finished = false; resolved = false } ∷ [];
  next_key = 2;
}

begin-run : begin in_space (run earlier empty_gate) ≡ ok (1, begun)
unfolding begin run step enter
begin-run = refl

abbrev add_thread : List Event
add_thread = add_threads_event 1 ("th1" ∷ []) ∷ []

abbrev finish_it : List Event
finish_it = enter_event in_space ∷ finish_operation_event 0 ∷ []

begin_excludes_example :
    (enter in_space (run finish_it begun) ≡ err deletion_in_progress)
    × (begin in_space (run finish_it begun) ≡ err deletion_in_progress)
unfolding blocks contains
begin_excludes_example =
    begin_excludes earlier in_space {key = 1} {g = begun} finish_it in_space begin-run refl tt refl

abbrev widened : ActiveDeletion
widened = record (new_deletion 1 in_space) { thread_ids = "th1" ∷ [] }

drained_example : AreOutside widened (run finish_it (run add_thread begun)).operations
unfolding deletion_of run step add_threads add_ids enter finish_operation blocks pending_of
    all_resolved contains
drained_example =
    drained earlier in_space {key = 1} {g = begun} add_thread finish_it {d = widened} begin-run refl
      tt tt refl refl

add_threads-narrows_example :
    let gate = registered 0 (tenant_scope "t1") in
    let after = add_threads 0 ("th1" ∷ []) gate in
    (is_blocked gate (space_scope "t1" "s1") ≡ true)
    × (after.active
        ≡ record (new_deletion 0 (tenant_scope "t1")) {
          thread_ids = add_ids [] ("th1" ∷ []);
          listed = true;
        }
          ∷ [])
    × (is_blocked after (space_scope "t1" "s1") ≡ false)
    × (is_blocked after (thread_scope "t1" "s1" "th1") ≡ true)
add_threads-narrows_example = add_threads-narrows "t1" "s1" "th1" [] 0 refl refl
