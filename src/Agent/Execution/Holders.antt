-- ===== src/Agent/Execution/Holders.antt =====
-- How many main executors a run has, and when the promise of its execution is resolved.
use run_forge.Base.{◌≤◌, String, ◌≡◌, refl, Bool, List, [], ◌∷◌, ◌==◌, arith, all, All}
use run_forge.Agent.Execution.{Registration, ActiveRunExecution}
use run_forge.Agent.Execution.Invariant.{IsSound, count, is_open}
use run_forge.Agent.Execution.Listing.{open_mains, open_mains-le}
use run_forge.Agent.Execution.Runs.{Call, started}
use run_forge.Agent.Execution.Consistency.{started-IsConsistent}

-- Whatever calls were made, a run has at most one open registration of a main executor.
pub open_mains-single :
    (cs : List Call) (run_id : String) → open_mains run_id (started cs).entries ≤ 1
open_mains-single cs run_id =
    let fine = started-IsConsistent cs in
    omega (arith, open_mains-le run_id (started cs).entries fine.sound, fine.single run_id)

abbrev pub all_finished : ActiveRunExecution → Bool
all_finished e = all (λ r. r.finished) e.registrations

finished-count : (rs : List Registration) → all (λ r. r.finished) rs ≡ (count is_open rs == 0)
finished-count [] = refl
finished-count (r ∷ rs) = ground (arith, finished-count rs)

-- Whatever calls were made, the promise of an execution is resolved exactly when each of its
-- registrations, of the main executor and of the background tasks, is finished.
pub done-finished : (cs : List Call) → All (λ e. e.done ≡ all_finished e) (started cs).entries
done-finished cs = each (started cs).entries (started-IsConsistent cs).sound
  where
    each : (es : List ActiveRunExecution) → All IsSound es → All (λ e. e.done ≡ all_finished e) es
    each [] h = tt
    each (e ∷ es) (h, hs) = (
      ground
          (arith, h.done_unlisted, h.listed_held, h.holders_count, finished-count e.registrations),
      each es hs,
    )
