-- ===== src/Store/Slots/Calls.antt =====
-- server/src/store/memoryStore.ts, class MemoryStore: the slots along any list of calls.
use run_forge.Base.{
  String, Option, some, List, [], ◌∷◌, ◌≡◌, refl, find_row, keys, Value, Fields, arith, sym, ◌∙◌,
}
use run_forge.Store.Rows.{Scope}
use run_forge.Store.State.{MemoryStore, empty_store}
use run_forge.Store.Runs.Status.{cancel_runs_for_deletion}
use run_forge.Store.Slots.{held, slot, live, IsSlotted, Effect, Effect-IsSlotted}
use run_forge.Store.Slots.Board.{Move, Shape-Move, Frees, cancel_each-Frees}
use run_forge.Store.Calls.Writes.{apply_scoped-Write}
use run_forge.Store.Slots.Removals.{Write-Effect, cancel_each-IsSlotted}
use run_forge.Store.Calls.{
  ScopedCall, Call, scoped, cancel_runs, apply_scoped, apply, apply_all, IsFresh, IsFreshCall,
  AreFresh,
}

-- What a call may do to the board: a call on threads or runs makes one move.
abbrev pub IsMove : Call → (String → Option String) → (String → Option String) → Type 0
IsMove (scoped scope call) board board' = Move board board'
IsMove (cancel_runs thread_ids now) board board' = Frees thread_ids board board'

module _ (media_refs_from_user_text : String → Value) (config : Fields) where
  apply_scoped-Effect :
      (scope : Scope) (call : ScopedCall) (s : MemoryStore)
      → IsSlotted s
      → IsFresh call s
      → Effect s (apply_scoped media_refs_from_user_text config scope call s)
  apply_scoped-Effect scope call s before fresh =
      Write-Effect scope s _ before
        (apply_scoped-Write media_refs_from_user_text config scope call s fresh)

  apply-IsSlotted :
      (call : Call) (s : MemoryStore)
      → IsSlotted s
      → IsFreshCall call s
      → IsSlotted (apply media_refs_from_user_text config call s)
  unfolding apply cancel_runs_for_deletion
  apply-IsSlotted (scoped scope call) s before fresh =
      Effect-IsSlotted s _ before (apply_scoped-Effect scope call s before fresh)
  apply-IsSlotted (cancel_runs thread_ids now) s before fresh =
      cancel_each-IsSlotted s before thread_ids now (keys s.runs)

  -- From a store in which the slots and the unfinished runs agree, a call whose new id is fresh changes
  -- what the threads execute by at most one entry: it starts one run in one thread that executes none,
  -- or finishes the run that one thread executes, so that no call replaces a run by another. The
  -- cancelling of the runs of some threads for their deletion only frees entries of these threads.
  pub apply-IsMove :
      (call : Call) (s : MemoryStore)
      → IsSlotted s
      → IsFreshCall call s
      → IsMove call (slot s) (slot (apply media_refs_from_user_text config call s))
  unfolding apply cancel_runs_for_deletion
  apply-IsMove (scoped scope call) s before fresh =
      Shape-Move s _ before (apply_scoped-Effect scope call s before fresh).shape
  apply-IsMove (cancel_runs thread_ids now) s before fresh =
      cancel_each-Frees s before thread_ids now (keys s.runs)

  -- Along any list of calls on threads and runs, by any users, in which new ids are fresh, it stays true
  -- that a thread's slot holds exactly the run of that thread that is not finished: the slot of an
  -- unfinished run's thread holds that run, and a run that a slot holds is unfinished and of that thread.
  pub apply_all-IsSlotted :
      (calls : List Call) (s : MemoryStore)
      → IsSlotted s
      → AreFresh media_refs_from_user_text config calls s
      → IsSlotted (apply_all media_refs_from_user_text config calls s)
  unfolding apply_all
  apply_all-IsSlotted [] s before fresh = before
  apply_all-IsSlotted (call ∷ calls) s before fresh =
      apply_all-IsSlotted calls (apply media_refs_from_user_text config call s)
        (apply-IsSlotted call s before fresh.0) fresh.1

  pub empty_store-IsSlotted : IsSlotted empty_store
  unfolding slot live find_row
  empty_store-IsSlotted = record { agrees = λ t r. refl; nameless = refl }

  some-injective : {a b : String} → some a ≡ some b → a ≡ b
  some-injective e = ground arith

  -- After any list of calls on an empty store in which new ids are fresh, two runs of one thread that are
  -- both not finished are the same run.
  pub apply_all-one_run :
      (calls : List Call)
      → AreFresh media_refs_from_user_text config calls empty_store
      → (t r q : String)
      → live (apply_all media_refs_from_user_text config calls empty_store) r ≡ some t
      → live (apply_all media_refs_from_user_text config calls empty_store) q ≡ some t
      → r ≡ q
  apply_all-one_run calls fresh t r q one other =
      let after = apply_all-IsSlotted calls empty_store empty_store-IsSlotted fresh in
      some-injective (sym (held after t r one) ∙ held after t q other)
