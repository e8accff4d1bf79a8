-- ===== src/Agent/Execution/Tests.antt =====
-- Runs of the executions, and their theorems at concrete calls.
use run_forge.Base.{◌≤◌, ◌≡◌, refl, List, [], ◌∷◌, err, All}
use run_forge.Agent.Execution.{
  ExecutionError, already_active, register, stop_accepting, find_entry, add_registration,
  may_register,
}
use run_forge.Agent.Execution.Listing.{open_mains}
use run_forge.Agent.Execution.Runs.{
  Call, register_call, retain_call, finish_call, bind_call, step, run, started,
}
use run_forge.Agent.Execution.Holders.{all_finished, open_mains-single, done-finished}
use run_forge.Agent.Execution.Shutdown.{stop_accepting-excludes}

-- A main executor and a background task; the executor ends first.
abbrev calls : List Call
calls =
    register_call "r1"
    ∷ bind_call 0 "th"
    ∷ retain_call "r1"
    ∷ register_call "r1"
    ∷ finish_call 0
    ∷ []

second_executor : register "r1" (started (register_call "r1" ∷ [])) ≡ err already_active
unfolding register step run find_entry may_register add_registration started
second_executor = refl

open_mains-single_example : open_mains "r1" (started calls).entries ≤ 1
open_mains-single_example = open_mains-single calls "r1"

done-finished_example : All (λ e. e.done ≡ all_finished e) (started calls).entries
done-finished_example = done-finished calls

stop_accepting-excludes_example :
    (x : ExecutionError) × (register "r1"
        (run (finish_call 1 ∷ []) (stop_accepting (started calls)))
      ≡ err x)
stop_accepting-excludes_example = stop_accepting-excludes calls (finish_call 1 ∷ []) "r1"
