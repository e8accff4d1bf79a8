-- ===== src/Deletion/Gate/Window.antt =====
-- The whole life of a deletion, from its registration in any gate that the program can reach.
use text.Mathlib.TextPositions.{eq_refl}
use run_forge.Base.{
  ℕ, ◌+◌, ◌<◌, String, str_eq, ◌≡◌, refl, sym, inl, inr, ◌≢◌, true, false, Option, none, some, List,
  [], ◌∷◌, arith, ◌==◌, ==_iff, ==_self, contains, find, Bool-cases, ok, err, All,
}
use run_forge.Deletion.Gate.{
  DeletionScope, ActiveDeletion, ActiveOperation, DeletionGate, deletion_in_progress, empty_gate,
  blocks, is_blocked, new_deletion, begin, add_ids, add_threads_to, add_threads, unlist,
  finish_deletion, enter, close_key, finish_operation, pending_of, all_resolved,
}
use run_forge.Deletion.Gate.Blocking.{
  is_narrow, is_narrow-extend, add_ids-from_empty, contains-add_ids, Event, begin_event,
  add_threads_event, finish_deletion_event, enter_event, finish_operation_event, step, run,
  KeepsOpen, Guards, Guards-enter, KeepsOpen-head, KeepsOpen-tail,
}
use run_forge.Deletion.Gate.Drain.{AreRunning, AreOutside, Guards-run, wait_excludes}

-- Keys are given out once, and a finished operation has left the set.
pub record IsValid (gate : DeletionGate) : Type 0 where
  pub fresh : All (λ c. c.key < gate.next_key) gate.active
  pub running : AreRunning gate.operations

module _ (n : ℕ) where
  fresh_mono : (cs : List ActiveDeletion) → All (λ c. c.key < n) cs → All (λ c. c.key < n + 1) cs
  fresh_mono [] h = tt
  fresh_mono (c ∷ cs) (h, hs) = (omega arith, fresh_mono cs hs)

  fresh-add_threads_to :
      (j : ℕ) (ids : List String) (cs : List ActiveDeletion)
      → All (λ c. c.key < n) cs
      → All (λ c. c.key < n) (add_threads_to j ids cs)
  unfolding add_threads_to
  fresh-add_threads_to j ids [] h = tt
  fresh-add_threads_to j ids (c ∷ cs) (h, hs) = (ground arith, fresh-add_threads_to j ids cs hs)

  fresh-unlist :
      (j : ℕ) (cs : List ActiveDeletion)
      → All (λ c. c.key < n) cs
      → All (λ c. c.key < n) (unlist j cs)
  unfolding unlist
  fresh-unlist j [] h = tt
  fresh-unlist j (c ∷ cs) (h, hs) = (ground arith, fresh-unlist j cs hs)

AreRunning-close_key :
    (j : ℕ) (ops : List ActiveOperation) → AreRunning ops → AreRunning (close_key j ops)
unfolding close_key
AreRunning-close_key j [] h = tt
AreRunning-close_key j (op ∷ ops) (h, hs) = (ground (arith, h), AreRunning-close_key j ops hs)

-- Every call on a gate keeps it valid.
pub step-IsValid : (e : Event) (gate : DeletionGate) → IsValid gate → IsValid (step e gate)
unfolding step begin add_threads finish_deletion enter finish_operation
step-IsValid (begin_event scope) gate v = elim (Bool-cases (is_blocked gate scope)) [
  | inl refused ↦ rw refused v
  | inr open_gate ↦ rw open_gate (record {
    fresh = (omega arith, fresh_mono gate.next_key gate.active v.fresh);
    running = v.running;
  })
]
step-IsValid (add_threads_event j ids) gate v = record {
  fresh = fresh-add_threads_to gate.next_key j ids gate.active v.fresh;
  running = v.running;
}
step-IsValid (finish_deletion_event j) gate v = record {
  fresh = fresh-unlist gate.next_key j gate.active v.fresh;
  running = v.running;
}
step-IsValid (enter_event scope) gate v = elim (Bool-cases (is_blocked gate scope)) [
  | inl refused ↦ rw refused v
  | inr open_gate ↦ rw open_gate (record {
    fresh = fresh_mono gate.next_key gate.active v.fresh;
    running = (λ _. refl, v.running);
  })
]
step-IsValid (finish_operation_event j) gate v = record {
  fresh = v.fresh;
  running = AreRunning-close_key j gate.operations v.running;
}

pub run-IsValid : (es : List Event) (gate : DeletionGate) → IsValid gate → IsValid (run es gate)
unfolding run
run-IsValid [] gate v = v
run-IsValid (e ∷ es) gate v = run-IsValid es (step e gate) (step-IsValid e gate v)

-- The object of a registration.
unfoldable pub deletion_of : ℕ → DeletionGate → Option ActiveDeletion
deletion_of key gate = find (λ c. c.key == key) gate.active

module _ (key : ℕ) where
  abbrev IsOwn : ActiveDeletion → Type 0
  IsOwn c = c.key ≡ key → (c.listed ≡ true) × (is_narrow c ≡ true)

  abbrev Owns : DeletionGate → Type 0
  Owns gate = (key < gate.next_key) × All IsOwn gate.active

  IsOwn-add_threads_to :
      (j : ℕ) (ids : List String) (cs : List ActiveDeletion)
      → All IsOwn cs
      → All IsOwn (add_threads_to j ids cs)
  unfolding add_threads_to
  IsOwn-add_threads_to j ids [] h = tt
  IsOwn-add_threads_to j ids (c ∷ cs) (h, hs) = elim (Bool-cases (c.key == j)) [
    | inl same ↦
        rw same ((λ e. ((h e).0, is_narrow-extend c ids (h e).1)), IsOwn-add_threads_to j ids cs hs)
    | inr other ↦ rw other (h, IsOwn-add_threads_to j ids cs hs)
  ]

  IsOwn-unlist :
      (j : ℕ) (cs : List ActiveDeletion) → j ≢ key → All IsOwn cs → All IsOwn (unlist j cs)
  unfolding unlist
  IsOwn-unlist j [] ne h = tt
  IsOwn-unlist j (c ∷ cs) ne (h, hs) = elim (Bool-cases (c.key == j)) [
    | inl same ↦ rw same ((λ e. absurd (ne (ground arith))), IsOwn-unlist j cs ne hs)
    | inr other ↦ rw other (h, IsOwn-unlist j cs ne hs)
  ]

  Owns-step :
      (e : Event) (gate : DeletionGate) → KeepsOpen key (e ∷ []) → Owns gate → Owns (step e gate)
  unfolding step begin add_threads finish_deletion enter finish_operation
  Owns-step (begin_event scope) gate o (lt, h) = elim (Bool-cases (is_blocked gate scope)) [
    | inl refused ↦ rw refused (lt, h)
    | inr open_gate ↦ rw open_gate (omega arith, ((λ e. absurd (omega arith)), h))
  ]
  Owns-step (add_threads_event j ids) gate o (lt, h) =
      (lt, IsOwn-add_threads_to j ids gate.active h)
  Owns-step (finish_deletion_event j) gate o (lt, h) = (lt, IsOwn-unlist j gate.active o.0 h)
  Owns-step (enter_event scope) gate o (lt, h) = elim (Bool-cases (is_blocked gate scope)) [
    | inl refused ↦ rw refused (lt, h)
    | inr open_gate ↦ rw open_gate (omega arith, h)
  ]
  Owns-step (finish_operation_event j) gate o h = h

  Owns-run :
      (es : List Event) (gate : DeletionGate) → KeepsOpen key es → Owns gate → Owns (run es gate)
  unfolding run
  Owns-run [] gate o h = h
  Owns-run (e ∷ es) gate o h =
      Owns-run es (step e gate) (KeepsOpen-tail key e es o)
        (Owns-step e gate (KeepsOpen-head key e es o) h)

  Guards-find :
      (cs : List ActiveDeletion) {d : ActiveDeletion}
      → All IsOwn cs
      → find (λ c. c.key == key) cs ≡ some d
      → Guards key d cs
  Guards-find [] h e = cc
  Guards-find (c ∷ cs) {d} (h, hs) e = elim (Bool-cases (c.key == key)) [
    | inl same ↦
        let k = (==_iff c.key key).0 same in
        let e' : c ≡ d = ground arith in inl (k, (h k).0, (h k).1, rw (← e') (λ s b. b))
    | inr other ↦ inr (Guards-find cs hs (ground arith))
  ]

  IsOwn-fresh :
      (n : ℕ) (cs : List ActiveDeletion) → n ≡ key → All (λ c. c.key < n) cs → All IsOwn cs
  IsOwn-fresh n [] e h = tt
  IsOwn-fresh n (c ∷ cs) e (h, hs) = ((λ k. absurd (omega arith)), IsOwn-fresh n cs e hs)

begin_lem :
    (scope : DeletionScope) (gate : DeletionGate) {key : ℕ} {g : DeletionGate}
    → begin scope gate ≡ ok (key, g)
    → (key ≡ gate.next_key)
      × (g ≡ record gate {
        active = new_deletion gate.next_key scope ∷ gate.active;
        next_key = gate.next_key + 1;
      })
unfolding begin
begin_lem scope gate e = elim (Bool-cases (is_blocked gate scope)) [
  | inl refused ↦ cc (rw refused at e)
  | inr open_gate ↦ let e' = rw open_gate at e in (cc e', cc e')
]

module _ (es : List Event) (scope : DeletionScope) {key : ℕ} {g : DeletionGate} where
  begun_Owns :
      begin scope (run es empty_gate) ≡ ok (key, g)
      → is_narrow (new_deletion key scope) ≡ true
      → Owns key g × IsValid g
  begun_Owns e n =
      let gate = run es empty_gate in
      let v : IsValid gate = run-IsValid es empty_gate (record { fresh = tt; running = tt }) in
      let (same, shape) = begin_lem scope gate e in
      rw shape (
        (
          omega arith,
          ((λ _. (refl, n)), IsOwn-fresh key gate.next_key gate.active (sym same) v.fresh),
        ),
        record {
          fresh = (omega arith, fresh_mono gate.next_key gate.active v.fresh);
          running = v.running;
        },
      )

  Guards-begun :
      begin scope (run es empty_gate) ≡ ok (key, g)
      → is_narrow (new_deletion key scope) ≡ true
      → Guards key (new_deletion key scope) g.active
  Guards-begun e n =
      let (same, shape) = begin_lem scope (run es empty_gate) e in
      rw shape (inl (sym same, refl, n, rw (← same) (λ s b. b)))

  -- From the registration of a deletion of a space or a thread, in any gate that a sequence of calls
  -- can reach, until the deletion's own `finish`: whatever calls other code makes, an operation and
  -- a further deletion whose scope the deletion blocked at its registration are refused.
  pub begin_excludes :
      (later : List Event) (s : DeletionScope)
      → begin scope (run es empty_gate) ≡ ok (key, g)
      → is_narrow (new_deletion key scope) ≡ true
      → KeepsOpen key later
      → blocks (new_deletion key scope) s ≡ true
      → (enter s (run later g) ≡ err deletion_in_progress)
        × (begin s (run later g) ≡ err deletion_in_progress)
  unfolding begin enter
  begin_excludes later s e n o b =
      let guards = Guards-run key (new_deletion key scope) later g o (Guards-begun e n) in
      let refused = Guards-enter key (new_deletion key scope) (run later g) s guards b in
      (rw refused, rw refused)

  -- A deletion of a space or a thread that is registered in any reachable gate, may be given threads
  -- by the calls `before`, and then waits for the operations in its range. If all of them have
  -- resolved after the further calls `during`, none of which finishes the deletion, no operation
  -- that the gate still holds lies in the deletion's range.
  pub drained :
      (before during : List Event) {d : ActiveDeletion}
      → begin scope (run es empty_gate) ≡ ok (key, g)
      → is_narrow (new_deletion key scope) ≡ true
      → KeepsOpen key before
      → KeepsOpen key during
      → deletion_of key (run before g) ≡ some d
      → all_resolved (pending_of d (run before g).operations) (run during (run before g)).operations
        ≡ true
      → AreOutside d (run during (run before g)).operations
  unfolding deletion_of
  drained before during {d} e n o o' found r =
      let (owns, v) = begun_Owns e n in
      let own = Owns-run key before g o owns in
      wait_excludes key d (run before g) during (Guards-find key (run before g).active own.1 found)
        (run-IsValid before g v).running o' r

abbrev pub tenant_scope : String → DeletionScope
tenant_scope tenant = record { tenant_id = tenant; space_id = none; thread_id = none }

abbrev pub space_scope : String → String → DeletionScope
space_scope tenant space = record { tenant_id = tenant; space_id = some space; thread_id = none }

-- The gate in which the deletion `key` of the scope is registered, and nothing else.
abbrev pub registered : ℕ → DeletionScope → DeletionGate
registered key scope = record empty_gate {
  active = new_deletion key scope ∷ [];
  next_key = key + 1;
}

abbrev pub thread_scope : String → String → String → DeletionScope
thread_scope tenant space thread = record {
  tenant_id = tenant;
  space_id = some space;
  thread_id = some thread;
}

-- In a gate that holds nothing else, the deletion of a whole tenant blocks the scope of a space of the
-- tenant. Once a thread and others have been added to it, the deletion is the one that the gate holds
-- and is still listed, with these threads as its set, and the scope of the space, which names no
-- thread, is no longer blocked, but the scope of the thread is.
pub add_threads-narrows :
    (tenant space thread : String) (threads : List String) (key : ℕ)
    → str_eq space "" ≡ false
    → str_eq thread "" ≡ false
    → let gate = registered key (tenant_scope tenant) in
      let after = add_threads key (thread ∷ threads) gate in
      (is_blocked gate (space_scope tenant space) ≡ true)
      × (after.active
          ≡ record (new_deletion key (tenant_scope tenant)) {
            thread_ids = add_ids [] (thread ∷ threads);
            listed = true;
          }
            ∷ [])
      × (is_blocked after (space_scope tenant space) ≡ false)
      × (is_blocked after (thread_scope tenant space thread) ≡ true)
unfolding is_blocked add_threads blocks contains
add_threads-narrows tenant space thread threads key h h' = (
  ground (arith, eq_refl tenant),
  rw (==_self key) refl,
  rw (==_self key) (ground (arith, eq_refl tenant, add_ids-from_empty thread threads)),
  rw (==_self key) (
      ground (
        arith,
        eq_refl tenant,
        add_ids-from_empty thread threads,
        contains-add_ids thread threads,
      )),
)
