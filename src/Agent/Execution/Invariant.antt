-- ===== src/Agent/Execution/Invariant.antt =====
-- The counters of an execution, and the calls that other code makes on the executions.
use run_forge.Base.{
  ℕ, ◌+◌, ◌≤◌, String, ◌≡◌, refl, Bool, true, not, ◌&&◌, some, List, [], ◌∷◌, ◌==◌, if◌then◌else◌,
  arith, All, map, Option-cases, Bool-cases, inl, inr, ok,
}
use run_forge.Agent.Execution.{
  Registration, ActiveRunExecution, find_entry, update_entry, may_register, add_registration,
  find_open, close_registration, settle, finish_on, new_entry, is_entry,
}

abbrev pub count : (Registration → Bool) → List Registration → ℕ
count p [] = 0
count p (r ∷ rs) = (if p r then 1 else 0) + count p rs

abbrev pub is_open : Registration → Bool
is_open r = not r.finished

abbrev pub is_open_main : Registration → Bool
is_open_main r = not r.finished && r.main

-- The counters agree with the registrations, and an execution stands in the map, and its promise
-- waits, for as long as a registration is open.
pub record IsSound (e : ActiveRunExecution) : Type 0 where
  pub holders_count : e.holders ≡ count is_open e.registrations
  pub main_count : (if e.main_active then 1 else 0) ≡ count is_open_main e.registrations
  pub listed_held : e.listed ≡ not (e.holders == 0)
  pub done_unlisted : e.done ≡ not e.listed

pub count-main-le : (rs : List Registration) → count is_open_main rs ≤ count is_open rs
count-main-le [] = omega arith
count-main-le (r ∷ rs) = ground (arith, count-main-le rs)

count-close :
    (key : ℕ) (rs : List Registration) {main : Bool}
    → find_open key rs ≡ some main
    → count is_open rs ≡ count is_open (close_registration key rs) + 1
unfolding find_open close_registration
count-close key [] e = cc
count-close key (r ∷ rs) {main} e = ground (arith, count-close key rs {main = main})

count-close-main :
    (key : ℕ) (rs : List Registration) {main : Bool}
    → find_open key rs ≡ some main
    → count is_open_main rs
      ≡ count is_open_main (close_registration key rs) + (if main then 1 else 0)
unfolding find_open close_registration
count-close-main key [] e = cc
count-close-main key (r ∷ rs) {main} e = ground (arith, count-close-main key rs {main = main})

pub finish_on-IsSound : (key : ℕ) (e : ActiveRunExecution) → IsSound e → IsSound (finish_on key e)
unfolding finish_on settle
finish_on-IsSound key e sound = elim (Option-cases (find_open key e.registrations)) [
  | inl unknown ↦ rw (unknown, finish_on) sound
  | inr (main, found) ↦
      rw (found, finish_on)
        (record {
          holders_count = ground (arith, count-close key e.registrations found);
          main_count = ground (arith, count-close-main key e.registrations found);
          listed_held = ground (arith, count-close key e.registrations found);
          done_unlisted = ground arith;
        })
]

pub add_registration-IsSound :
    (key : ℕ) (main : Bool) (e : ActiveRunExecution) {u : Unit {0}}
    → e.listed ≡ true
    → may_register main e ≡ ok u
    → IsSound e
    → IsSound (add_registration key main e)
unfolding add_registration may_register
add_registration-IsSound key main e listed allowed sound = record {
  holders_count = ground (arith, sound.holders_count);
  main_count = ground (arith, sound.main_count);
  listed_held = ground (arith, sound.listed_held);
  done_unlisted = sound.done_unlisted;
}

pub new_entry-IsSound :
    (key : ℕ) (run_id : String) → IsSound (add_registration key true (new_entry run_id))
unfolding add_registration
new_entry-IsSound key run_id = record {
  holders_count = refl;
  main_count = refl;
  listed_held = refl;
  done_unlisted = refl;
}

pub find_entry-listed :
    (run_id : String) (es : List ActiveRunExecution) {e : ActiveRunExecution}
    → find_entry run_id es ≡ some e
    → e.listed ≡ true
unfolding find_entry
find_entry-listed run_id [] found = cc
find_entry-listed run_id (x ∷ es) {e} found = ground (arith, find_entry-listed run_id es {e = e})

module _ (P : ActiveRunExecution → Type 0) where
  pub update_entry-All :
      (run_id : String) (f : ActiveRunExecution → ActiveRunExecution) (es : List ActiveRunExecution)
      → ((e : ActiveRunExecution) → find_entry run_id es ≡ some e → P e → P (f e))
      → All P es
      → All P (update_entry run_id f es)
  unfolding update_entry find_entry
  update_entry-All run_id f [] keeps h = tt
  update_entry-All run_id f (e ∷ es) keeps (p, ps) = elim (Bool-cases (is_entry run_id e)) [
    | inl here ↦ rw (here, update_entry) (keeps e (rw (here, find_entry) refl) p, ps)
    | inr elsewhere ↦
        rw (elsewhere, update_entry)
          (
            p,
            update_entry-All run_id f es (λ e' found. keeps e' (rw (elsewhere, find_entry) found))
                ps,
          )
  ]

  pub map-All :
      (f : ActiveRunExecution → ActiveRunExecution) (es : List ActiveRunExecution)
      → ((e : ActiveRunExecution) → P e → P (f e))
      → All P es
      → All P (map f es)
  map-All f [] keeps h = tt
  map-All f (e ∷ es) keeps (p, ps) = (keeps e p, map-All f es keeps ps)
