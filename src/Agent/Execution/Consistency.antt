-- ===== src/Agent/Execution/Consistency.antt =====
-- What holds of the executions after any calls.
use run_forge.Base.{
  ℕ, ◌+◌, ◌≤◌, String, eq_iff, ◌≡◌, refl, Bool, true, false, not, ◌&&◌, none, some, List, [], ◌∷◌,
  if◌then◌else◌, arith, All, map, Option-cases, Bool-cases, inl, inr, Result, err, Result-cases,
  OnOk, OnOk-bind, OnOk-value,
}
use run_forge.Agent.Execution.{
  ActiveRunExecution, Executions, ExecutionError, not_accepting, no_executions, stop_accepting,
  find_entry, may_register, add_registration, register, retain, finish_on, finish, bind_entries,
  bind_thread, abort_run, abort_entry, new_entry, register_existing, owns, bound_elsewhere,
  is_bound_to,
}
use run_forge.Agent.Execution.Invariant.{
  IsSound, finish_on-IsSound, add_registration-IsSound, new_entry-IsSound, find_entry-listed,
  update_entry-All, map-All,
}
use run_forge.Agent.Execution.Listing.{
  listed_count, IsLater, finish_on-IsLater, listed_count-map, listed_count-update,
  listed_count-none,
}
use run_forge.Agent.Execution.Runs.{
  Call, register_call, retain_call, abort_run_call, bind_call, finish_call, abort_threads_call,
  stop_call, registered, bound, step, run, started, aborted_if, abort_threads-map,
}

pub record IsConsistent (s : Executions) : Type 0 where
  pub sound : All IsSound s.entries
  pub single : (run_id : String) → listed_count run_id s.entries ≤ 1

abort-IsSound : (e : ActiveRunExecution) → IsSound e → IsSound (abort_entry e)
abort-IsSound e sound = record {
  holders_count = sound.holders_count;
  main_count = sound.main_count;
  listed_held = sound.listed_held;
  done_unlisted = sound.done_unlisted;
}

bind-IsSound :
    (thread_id : String) (e : ActiveRunExecution)
    → IsSound e
    → IsSound (record e { thread_id = some thread_id })
bind-IsSound thread_id e sound = record {
  holders_count = sound.holders_count;
  main_count = sound.main_count;
  listed_held = sound.listed_held;
  done_unlisted = sound.done_unlisted;
}

-- A change that keeps every execution sound and puts none into the map keeps the executions consistent.
changed :
    (s s' : Executions)
    → All IsSound s'.entries
    → ((id : String) → listed_count id s'.entries ≤ listed_count id s.entries)
    → IsConsistent s
    → IsConsistent s'
changed s s' sound fewer fine = record {
  sound = sound;
  single = λ id. omega (arith, fewer id, fine.single id);
}

register_existing-IsConsistent :
    (run_id : String) (main : Bool) (e : ActiveRunExecution) (s : Executions)
    → find_entry run_id s.entries ≡ some e
    → IsConsistent s
    → IsConsistent (registered s (register_existing run_id main e s))
unfolding add_registration
register_existing-IsConsistent run_id main e s found fine =
    elim (Result-cases (may_register main e)) [
      | inl (x, refused) ↦ rw (refused, registered, register_existing) fine
      | inr (_, allowed) ↦
          rw (allowed, registered, register_existing)
            (changed s _
              (update_entry-All IsSound run_id (add_registration s.next_key main) s.entries
                (λ e' found' sound.
                  add_registration-IsSound s.next_key main e'
                    (find_entry-listed run_id s.entries found') (cc) sound)
                fine.sound)
              (λ id.
                listed_count-update id run_id (add_registration s.next_key main) s.entries
                  (λ e'. (refl, λ h. h)))
              fine)
    ]

new-IsConsistent :
    (run_id : String) (s : Executions)
    → find_entry run_id s.entries ≡ none
    → IsConsistent s
    → IsConsistent (record s {
      entries = add_registration s.next_key true (new_entry run_id) ∷ s.entries;
      next_key = s.next_key + 1;
    })
unfolding add_registration
new-IsConsistent run_id s missing fine = record {
  sound = (new_entry-IsSound s.next_key run_id, fine.sound);
  single = λ id.
      ground (arith, eq_iff run_id id, listed_count-none run_id s.entries missing, fine.single id);
}

if_accepting :
    (b : Bool) (s : Executions) (outcome : Result ExecutionError (ℕ × Executions))
    → IsConsistent s
    → IsConsistent (registered s outcome)
    → IsConsistent (registered s (if not b then err not_accepting else outcome))
if_accepting true s outcome fine then_fine = then_fine
if_accepting false s outcome fine then_fine = fine

register-IsConsistent :
    (run_id : String) (s : Executions)
    → IsConsistent s
    → IsConsistent (registered s (register run_id s))
unfolding register
register-IsConsistent run_id s fine = elim (Option-cases (find_entry run_id s.entries)) [
  | inr (e, found) ↦
      rw (found, register) (register_existing-IsConsistent run_id true e s found fine)
  | inl missing ↦
      rw (missing, register)
        (if_accepting s.accepting s _ fine (new-IsConsistent run_id s missing fine))
]

retain-IsConsistent :
    (run_id : String) (s : Executions)
    → IsConsistent s
    → IsConsistent (registered s (retain run_id s))
unfolding retain
retain-IsConsistent run_id s fine = elim (Option-cases (find_entry run_id s.entries)) [
  | inr (e, found) ↦ rw (found, retain) (register_existing-IsConsistent run_id false e s found fine)
  | inl missing ↦ rw (missing, retain) fine
]

finish-IsConsistent : (key : ℕ) (s : Executions) → IsConsistent s → IsConsistent (finish key s)
unfolding finish
finish-IsConsistent key s fine =
    changed s _ (map-All IsSound (finish_on key) s.entries (finish_on-IsSound key) fine.sound)
      (λ id. listed_count-map id (finish_on key) s.entries (finish_on-IsLater key)) fine

abort_run-IsConsistent :
    (run_id : String) (s : Executions) → IsConsistent s → IsConsistent (abort_run run_id s).0
unfolding abort_run
abort_run-IsConsistent run_id s fine = elim (Option-cases (find_entry run_id s.entries)) [
  | inl missing ↦ rw (missing, abort_run) fine
  | inr (e, found) ↦
      rw (found, abort_run)
        (changed s _
          (update_entry-All IsSound run_id abort_entry s.entries (λ e' _. abort-IsSound e')
            fine.sound)
          (λ id. listed_count-update id run_id abort_entry s.entries (λ e'. (refl, λ h. h))) fine)
]

aborted_if-IsSound :
    (p : ActiveRunExecution → Bool) (e : ActiveRunExecution) → IsSound e → IsSound (aborted_if p e)
unfolding aborted_if
aborted_if-IsSound p e sound = elim (Bool-cases (p e)) [
  | inl h ↦ rw (h, aborted_if) (abort-IsSound e sound)
  | inr h ↦ rw (h, aborted_if) sound
]

aborted_if-IsLater :
    (p : ActiveRunExecution → Bool) (e : ActiveRunExecution) → IsLater (aborted_if p e) e
unfolding aborted_if
aborted_if-IsLater p e = (ground arith, λ h. ground arith)

aborted_if-IsConsistent :
    (p : ActiveRunExecution → Bool) (s : Executions)
    → IsConsistent s
    → IsConsistent (record s { entries = map (aborted_if p) s.entries })
unfolding aborted_if
aborted_if-IsConsistent p s fine =
    changed s _ (map-All IsSound (aborted_if p) s.entries (λ e. aborted_if-IsSound p e) fine.sound)
      (λ id. listed_count-map id (aborted_if p) s.entries (aborted_if-IsLater p)) fine

-- The entries after `bindThread`, when it is not refused.
abbrev IsKept : List ActiveRunExecution → List ActiveRunExecution → Type 0
IsKept es es' =
    (All IsSound es → All IsSound es') × ((id : String) → listed_count id es' ≤ listed_count id es)

bind_entries-IsKept :
    (key : ℕ) (thread_id : String) (es : List ActiveRunExecution)
    → OnOk (IsKept es) (bind_entries key thread_id es)
unfolding bind_entries
bind_entries-IsKept key thread_id [] = ((λ h. h), λ id. omega arith)
bind_entries-IsKept key thread_id (e ∷ es) = elim (Bool-cases (owns key e.registrations)) [
  | inl mine ↦ elim (Bool-cases (bound_elsewhere thread_id e)) [
    | inl taken ↦ rw (mine, taken, bind_entries) tt
    | inr free ↦
        rw (mine, free, bind_entries)
          ((λ h. (bind-IsSound thread_id e h.0, h.1)), λ id. omega arith)
  ]
  | inr other ↦
      rw (other, bind_entries)
        (OnOk-bind (IsKept (e ∷ es)) (bind_entries key thread_id es) _ λ es' e'.
          let (sound, fewer) = OnOk-value (IsKept es) (bind_entries-IsKept key thread_id es) e' in
          ((λ h. (h.0, sound h.1)), λ id. omega (arith, fewer id)))
]

bind_thread-IsConsistent :
    (key : ℕ) (thread_id : String) (s : Executions)
    → IsConsistent s
    → IsConsistent (bound s (bind_thread key thread_id s))
unfolding bind_thread
bind_thread-IsConsistent key thread_id s fine =
    elim (Result-cases (bind_entries key thread_id s.entries)) [
      | inl (x, refused) ↦ rw (refused, bind_thread) fine
      | inr (es, done) ↦
          let (sound, fewer) =
            OnOk-value (IsKept s.entries) (bind_entries-IsKept key thread_id s.entries) done in
          rw (done, bind_thread) (changed s _ (sound fine.sound) fewer fine)
    ]

stop_accepting-IsConsistent : (s : Executions) → IsConsistent s → IsConsistent (stop_accepting s)
unfolding stop_accepting aborted_if
stop_accepting-IsConsistent s fine =
    changed s _
      (map-All IsSound (aborted_if (λ e. e.listed)) s.entries (aborted_if-IsSound (λ e. e.listed))
        fine.sound)
      (λ id.
        listed_count-map id (aborted_if (λ e. e.listed)) s.entries
          (aborted_if-IsLater (λ e. e.listed)))
      fine

step-IsConsistent : (c : Call) (s : Executions) → IsConsistent s → IsConsistent (step c s)
unfolding step
step-IsConsistent (register_call run_id) s fine = register-IsConsistent run_id s fine
step-IsConsistent (retain_call run_id) s fine = retain-IsConsistent run_id s fine
step-IsConsistent (abort_run_call run_id) s fine = abort_run-IsConsistent run_id s fine
step-IsConsistent (bind_call key thread_id) s fine = bind_thread-IsConsistent key thread_id s fine
step-IsConsistent (finish_call key) s fine = finish-IsConsistent key s fine
step-IsConsistent (abort_threads_call ids) s fine =
    rw (abort_threads-map ids s.entries)
      (aborted_if-IsConsistent (λ e. e.listed && is_bound_to ids e) s fine)
step-IsConsistent stop_call s fine = stop_accepting-IsConsistent s fine

run-IsConsistent : (cs : List Call) (s : Executions) → IsConsistent s → IsConsistent (run cs s)
unfolding run
run-IsConsistent [] s fine = fine
run-IsConsistent (c ∷ cs) s fine = run-IsConsistent cs (step c s) (step-IsConsistent c s fine)

pub started-IsConsistent : (cs : List Call) → IsConsistent (started cs)
started-IsConsistent cs =
    run-IsConsistent cs no_executions (record { sound = tt; single = λ id. omega arith })
