-- ===== src/Agent/Bus/Tests.antt =====
-- Events of one run, before and after a client comes back.
use run_forge.Base.{◌≡◌, false, some, List, [], ◌∷◌, null}
use run_forge.Agent.Bus.{AgentEvent, empty_bus, current_cursor, events_after}
use run_forge.Agent.Bus.Replay.{
  Call, publish_call, clear_before_call, run, publish_all, numbered, events_after-publish_all,
}

abbrev event : AgentEvent
event = record { is_step_start = false; step = some 1; payload = null }

abbrev calls : List Call
calls = publish_call "r1" event ∷ publish_call "r2" event ∷ clear_before_call "r1" 1 ∷ []

events_after-publish_all_example :
    let bus = run calls empty_bus in
    events_after "r1" (current_cursor "r1" bus) (publish_all "r1" (event ∷ event ∷ []) bus)
    ≡ numbered (current_cursor "r1" bus) (event ∷ event ∷ [])
events_after-publish_all_example = events_after-publish_all calls "r1" (event ∷ event ∷ [])
