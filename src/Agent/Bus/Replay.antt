-- ===== src/Agent/Bus/Replay.antt =====
-- What a client that comes back gets of the events that it has missed.
use run_forge.Base.{
  ℕ, ◌+◌, ◌≤◌, String, str_eq, eq_iff, ◌≡◌, refl, sym, ap, ◌∙◌, Bool, true, Option, none, some,
  List, [], ◌∷◌, ◌++◌, filter, filter-append, arith, ltb, All, All-append, Bool-cases, inl, inr,
}
use mathlib.Core.Path.{subst}
use mathlib.Core.List.{append-nil, append_assoc}
use text.Mathlib.TextPositions.{eq_refl}
use run_forge.Agent.Bus.{
  AgentEvent, LiveRunEvent, RunBus, empty_bus, or_zero, or_empty, current_cursor, publish,
  events_after, publish_step_completed, clear_before_step, clear, cleared, is_active_step,
  is_from_step,
}

-- The calls that change the bus.
pub data Call : Type 0 where
  publish_call : String → AgentEvent → Call
  step_completed_call clear_before_call : String → ℕ → Call
  clear_call : String → Call

unfoldable pub step : Call → RunBus → RunBus
step (publish_call run_id event) bus = (publish run_id event bus).0
step (step_completed_call run_id n) bus = publish_step_completed run_id n bus
step (clear_before_call run_id n) bus = clear_before_step run_id n bus
step (clear_call run_id) bus = clear run_id bus

unfoldable pub run : List Call → RunBus → RunBus
unfolding step
run [] bus = bus
run (c ∷ cs) bus = run cs (step c bus)

-- The buffered cursors of a run are not beyond its current one.
AreKnown : String → RunBus → Type 0
AreKnown id bus = All (λ row. row.cursor ≤ or_zero (bus.cursors id)) (or_empty (bus.buffers id))

All-weaken :
    (n m : ℕ) (rows : List LiveRunEvent)
    → n ≤ m
    → All (λ row. row.cursor ≤ n) rows
    → All (λ row. row.cursor ≤ m) rows
All-weaken n m [] le h = tt
All-weaken n m (row ∷ rows) le (h, hs) = (omega arith, All-weaken n m rows le hs)

All-filter :
    (P : LiveRunEvent → Type 0) (p : LiveRunEvent → Bool) (rows : List LiveRunEvent)
    → All P rows
    → All P (filter p rows)
All-filter P p [] h = tt
All-filter P p (row ∷ rows) (h, hs) = elim (Bool-cases (p row)) [
  | inl kept ↦ rw kept (h, All-filter P p rows hs)
  | inr gone ↦ rw gone (All-filter P p rows hs)
]

publish-AreKnown :
    (id run_id : String) (event : AgentEvent) (bus : RunBus)
    → AreKnown id bus
    → AreKnown id (publish run_id event bus).0
unfolding AreKnown publish
publish-AreKnown id run_id event bus h = elim (Bool-cases (str_eq id run_id)) [
  | inl same ↦
      let own = subst (λ i. AreKnown i bus) ((eq_iff id run_id).0 same) h in
      let cursor = or_zero (bus.cursors run_id) in
      rw same (
        All-append (λ row. row.cursor ≤ cursor + 1) (or_empty (bus.buffers run_id)) _
          (All-weaken cursor (cursor + 1) (or_empty (bus.buffers run_id)) (omega arith) own)
          (omega arith, tt))
  | inr other ↦ rw other h
]

cleared-known :
    (n cursor : ℕ) (o : Option (List LiveRunEvent))
    → All (λ row. row.cursor ≤ cursor) (or_empty o)
    → All (λ row. row.cursor ≤ cursor) (or_empty (cleared n o))
cleared-known n cursor none h = tt
cleared-known n cursor (some rows) h =
    All-filter (λ row. row.cursor ≤ cursor) (is_from_step n) rows h

clear_before_step-AreKnown :
    (id run_id : String) (n : ℕ) (bus : RunBus)
    → AreKnown id bus
    → AreKnown id (clear_before_step run_id n bus)
unfolding AreKnown clear_before_step
clear_before_step-AreKnown id run_id n bus h = elim (Bool-cases (str_eq id run_id)) [
  | inl same ↦
      rw (same, sym ((eq_iff id run_id).0 same))
        (cleared-known n (or_zero (bus.cursors id)) (bus.buffers id) h)
  | inr other ↦ rw other h
]

step-AreKnown : (id : String) (c : Call) (bus : RunBus) → AreKnown id bus → AreKnown id (step c bus)
unfolding step AreKnown publish_step_completed clear
step-AreKnown id (publish_call run_id event) bus h = publish-AreKnown id run_id event bus h
step-AreKnown id (step_completed_call run_id n) bus h =
    elim (Bool-cases (is_active_step (bus.active_steps run_id) n)) [
      | inl active ↦ rw (active, step, publish_step_completed) h
      | inr idle ↦ rw (idle, step, publish_step_completed) h
    ]
step-AreKnown id (clear_before_call run_id n) bus h = clear_before_step-AreKnown id run_id n bus h
step-AreKnown id (clear_call run_id) bus h = elim (Bool-cases (str_eq id run_id)) [
  | inl same ↦ rw same tt
  | inr other ↦ rw other h
]

run-AreKnown :
    (id : String) (cs : List Call) (bus : RunBus) → AreKnown id bus → AreKnown id (run cs bus)
unfolding run
run-AreKnown id [] bus h = h
run-AreKnown id (c ∷ cs) bus h = run-AreKnown id cs (step c bus) (step-AreKnown id c bus h)

-- The events at consecutive cursors.
abbrev pub numbered : ℕ → List AgentEvent → List LiveRunEvent
numbered cursor [] = []
numbered cursor (e ∷ es) = record { cursor = cursor + 1; event = e } ∷ numbered (cursor + 1) es

unfoldable pub publish_all : String → List AgentEvent → RunBus → RunBus
publish_all run_id [] bus = bus
publish_all run_id (e ∷ es) bus = publish_all run_id es (publish run_id e bus).0

publish-cursor :
    (id : String) (e : AgentEvent) (bus : RunBus)
    → or_zero ((publish id e bus).0.cursors id) ≡ or_zero (bus.cursors id) + 1
unfolding publish
publish-cursor id e bus = rw (eq_refl id) refl

publish-rows :
    (id : String) (e : AgentEvent) (bus : RunBus)
    → or_empty ((publish id e bus).0.buffers id)
      ≡ or_empty (bus.buffers id)
        ++ record { cursor = or_zero (bus.cursors id) + 1; event = e } ∷ []
unfolding publish
publish-rows id e bus = rw (eq_refl id) refl

publish_all-rows :
    (id : String) (es : List AgentEvent) (bus : RunBus)
    → or_empty ((publish_all id es bus).buffers id)
      ≡ or_empty (bus.buffers id) ++ numbered (or_zero (bus.cursors id)) es
unfolding publish_all
publish_all-rows id [] bus = sym (append-nil (or_empty (bus.buffers id)))
publish_all-rows id (e ∷ es) bus =
    publish_all-rows id es (publish id e bus).0
    ∙ rw (publish-rows id e bus, publish-cursor id e bus)
        (append_assoc (or_empty (bus.buffers id)) _ _)

after-none :
    (c : ℕ) (rows : List LiveRunEvent)
    → All (λ row. row.cursor ≤ c) rows
    → filter (λ row. ltb c row.cursor) rows ≡ []
after-none c [] h = refl
after-none c (row ∷ rows) (h, hs) = ground (arith, after-none c rows hs)

after-all :
    (c n : ℕ) (es : List AgentEvent)
    → c ≤ n
    → filter (λ row. ltb c row.cursor) (numbered n es) ≡ numbered n es
after-all c n [] le = refl
after-all c n (e ∷ es) le =
    let later : ltb c (n + 1) ≡ true = ground arith in
    rw later (
      ap (λ rest. record { cursor = n + 1; event = e } ∷ rest)
        (after-all c (n + 1) es (omega arith)))

-- In any bus that calls can reach, a client that has read up to the current cursor of a run gets,
-- after more events have been published, exactly these, in their order and at consecutive cursors.
pub events_after-publish_all :
    (calls : List Call) (id : String) (events : List AgentEvent)
    → let bus = run calls empty_bus in
      events_after id (current_cursor id bus) (publish_all id events bus)
      ≡ numbered (current_cursor id bus) events
unfolding events_after current_cursor AreKnown
events_after-publish_all calls id events =
    let bus = run calls empty_bus in
    let cursor = or_zero (bus.cursors id) in
    let known : AreKnown id bus = run-AreKnown id calls empty_bus tt in
    rw
      (
        publish_all-rows id events bus,
        filter-append (λ row. ltb cursor row.cursor) (or_empty (bus.buffers id))
            (numbered cursor events),
        after-none cursor (or_empty (bus.buffers id)) known,
      )
      (after-all cursor cursor events (omega arith))
