-- ===== src/Agent/Bus.antt =====
-- server/src/agent/bus.ts, class RunBus: the buffered events of the runs, by their cursors.
-- A map is a function of the run. The handlers that `emit` calls are other code, and stand for
-- nothing here.
pub mod Replay
mod Tests
use run_forge.Base.{
  ℕ, ◌+◌, String, str_eq, Bool, true, false, not, ◌&&◌, Option, none, some, List, [], ◌∷◌, ◌++◌,
  map, filter, ltb, leb, ◌==◌, if◌then◌else◌, Value,
}

-- An event, with its step if it has one.
pub record AgentEvent : Type 0 where
  pub is_step_start : Bool
  pub step : Option ℕ
  pub payload : Value

pub record LiveRunEvent : Type 0 where
  pub cursor : ℕ
  pub event : AgentEvent

pub record RunBus : Type 0 where
  pub buffers : String → Option (List LiveRunEvent)
  pub cursors : String → Option ℕ
  pub active_steps : String → Option ℕ

abbrev pub empty_bus : RunBus
empty_bus = record { buffers = λ _. none; cursors = λ _. none; active_steps = λ _. none }

abbrev pub set {ℓ} : {A : Type ℓ} → (String → A) → String → A → String → A
set f key a k = if str_eq k key then a else f k

abbrev pub or_zero : Option ℕ → ℕ
or_zero none = 0
or_zero (some n) = n

abbrev pub or_empty : Option (List LiveRunEvent) → List LiveRunEvent
or_empty none = []
or_empty (some rows) = rows

unfoldable pub current_cursor : String → RunBus → ℕ
current_cursor run_id bus = or_zero (bus.cursors run_id)

-- The run's buffer gets the event at the next cursor, which is returned.
unfoldable pub publish : String → AgentEvent → RunBus → RunBus × ℕ
publish run_id event bus =
    let cursor = or_zero (bus.cursors run_id) + 1 in
    (
      record {
        buffers = set bus.buffers run_id (
            some (or_empty (bus.buffers run_id) ++ record { cursor = cursor; event = event } ∷ []));
        cursors = set bus.cursors run_id (some cursor);
        active_steps =
            if event.is_step_start
            then set bus.active_steps run_id event.step
            else bus.active_steps;
      },
      cursor,
    )

unfoldable pub events_after : String → ℕ → RunBus → List LiveRunEvent
events_after run_id cursor bus =
    filter (λ row. ltb cursor row.cursor) (or_empty (bus.buffers run_id))

abbrev is_at_step : ℕ → LiveRunEvent → Bool
is_at_step step row = elim row.event.step [ none ↦ false | some n ↦ n == step ]

unfoldable pub current_step_snapshot : String → RunBus → Option (ℕ × List AgentEvent)
current_step_snapshot run_id bus = elim (bus.active_steps run_id) [
  | none ↦ none
  | some step ↦
      some (step, map (λ row. row.event) (filter (is_at_step step) (or_empty (bus.buffers run_id))))
]

abbrev pub is_active_step : Option ℕ → ℕ → Bool
is_active_step none step = false
is_active_step (some n) step = n == step

unfoldable pub publish_step_completed : String → ℕ → RunBus → RunBus
publish_step_completed run_id step bus =
    if is_active_step (bus.active_steps run_id) step
    then record bus { active_steps = set bus.active_steps run_id none }
    else bus

abbrev pub is_from_step : ℕ → LiveRunEvent → Bool
is_from_step step row = elim row.event.step [ none ↦ true | some n ↦ leb step n ]

abbrev pub cleared : ℕ → Option (List LiveRunEvent) → Option (List LiveRunEvent)
cleared step none = none
cleared step (some rows) = some (filter (is_from_step step) rows)

unfoldable pub clear_before_step : String → ℕ → RunBus → RunBus
clear_before_step run_id step bus = record bus {
  active_steps = set bus.active_steps run_id (some step);
  buffers = set bus.buffers run_id (cleared step (bus.buffers run_id));
}

unfoldable pub clear : String → RunBus → RunBus
clear run_id bus = record {
  buffers = set bus.buffers run_id none;
  cursors = set bus.cursors run_id none;
  active_steps = set bus.active_steps run_id none;
}
