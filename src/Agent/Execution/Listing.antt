-- ===== src/Agent/Execution/Listing.antt =====
-- How many executions the map holds for a run.
use run_forge.Base.{
  ℕ, ◌+◌, ◌≤◌, String, str_eq, ◌≡◌, refl, sym, true, none, List, [], ◌∷◌, if◌then◌else◌, arith, All,
  map, Bool-cases, inl, inr,
}
use run_forge.Agent.Execution.{
  ActiveRunExecution, find_entry, update_entry, is_entry, finish_on, settle,
}
use run_forge.Agent.Execution.Invariant.{IsSound, count, is_open_main, count-main-le}

abbrev pub listed_count : String → List ActiveRunExecution → ℕ
listed_count run_id [] = 0
listed_count run_id (e ∷ es) = (if is_entry run_id e then 1 else 0) + listed_count run_id es

-- The registrations of a run's main executors that are open, over all the run's executions.
abbrev pub open_mains : String → List ActiveRunExecution → ℕ
open_mains run_id [] = 0
open_mains run_id (e ∷ es) =
    (if str_eq e.run_id run_id then count is_open_main e.registrations else 0)
    + open_mains run_id es

-- `e'` is `e` later: the same run, and in the map only if `e` was.
abbrev pub IsLater : ActiveRunExecution → ActiveRunExecution → Type 0
IsLater e' e = (e'.run_id ≡ e.run_id) × (e'.listed ≡ true → e.listed ≡ true)

pub finish_on-IsLater : (key : ℕ) (e : ActiveRunExecution) → IsLater (finish_on key e) e
unfolding finish_on settle
finish_on-IsLater key e = (ground arith, λ h. ground arith)

weight-later :
    (run_id : String) (e' e : ActiveRunExecution)
    → IsLater e' e
    → (if is_entry run_id e' then 1 else 0) ≤ (if is_entry run_id e then 1 else 0)
weight-later run_id e' e (same, listed) = rw (sym same) (ground arith)

pub listed_count-map :
    (run_id : String) (f : ActiveRunExecution → ActiveRunExecution) (es : List ActiveRunExecution)
    → ((e : ActiveRunExecution) → IsLater (f e) e)
    → listed_count run_id (map f es) ≤ listed_count run_id es
listed_count-map run_id f [] later = omega arith
listed_count-map run_id f (e ∷ es) later =
    omega (arith, weight-later run_id (f e) e (later e), listed_count-map run_id f es later)

pub listed_count-update :
    (run_id asked : String) (f : ActiveRunExecution → ActiveRunExecution)
    (es : List ActiveRunExecution)
    → ((e : ActiveRunExecution) → IsLater (f e) e)
    → listed_count run_id (update_entry asked f es) ≤ listed_count run_id es
unfolding update_entry
listed_count-update run_id asked f [] later = omega arith
listed_count-update run_id asked f (e ∷ es) later = elim (Bool-cases (is_entry asked e)) [
  | inl here ↦ rw here (omega (arith, weight-later run_id (f e) e (later e)))
  | inr elsewhere ↦ rw elsewhere (omega (arith, listed_count-update run_id asked f es later))
]

pub listed_count-none :
    (run_id : String) (es : List ActiveRunExecution)
    → find_entry run_id es ≡ none
    → listed_count run_id es ≡ 0
unfolding find_entry
listed_count-none run_id [] h = refl
listed_count-none run_id (e ∷ es) h = ground (arith, listed_count-none run_id es)

main-le-listed :
    (e : ActiveRunExecution)
    → IsSound e
    → count is_open_main e.registrations ≤ (if e.listed then 1 else 0)
main-le-listed e sound =
    ground (
      arith,
      sound.holders_count,
      sound.main_count,
      sound.listed_held,
      count-main-le e.registrations,
    )

pub open_mains-le :
    (run_id : String) (es : List ActiveRunExecution)
    → All IsSound es
    → open_mains run_id es ≤ listed_count run_id es
open_mains-le run_id [] h = omega arith
open_mains-le run_id (e ∷ es) (h, hs) =
    ground (arith, main-le-listed e h, open_mains-le run_id es hs)
