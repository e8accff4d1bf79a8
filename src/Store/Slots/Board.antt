-- ===== src/Store/Slots/Board.antt =====
-- server/src/store/memoryStore.ts, class MemoryStore: the executions of the threads without the tables.
-- A board gives the run that a thread executes; a move starts a run in a thread that executes none, or
-- finishes the run that a thread executes.
use run_forge.Base.{
  String, List, [], ◌∷◌, str_eq, eq_iff, false, Option, none, some, if◌then◌else◌, ◌≡◌, refl, arith,
  ◌∙◌, ◌⊎◌, true, not, ◌||◌, contains, find_row, set_row, inl, inr, Bool-cases, Option-cases,
  fun_ext,
}
use run_forge.Spaces.Access.{opt_eq}
use run_forge.Store.Rows.{ThreadRow, is_terminal_run_status}
use run_forge.Store.Slots.Effects.{slot-of}
use run_forge.Store.State.{MemoryStore, put_run, put_thread}
use run_forge.Store.Runs.Status.{released, cancel_run, cancel_each}
use run_forge.Store.Slots.{
  holds, slot, live-nameless, IsSlotted, Shape, unchanged, claimed, freed, purged, Effect-IsSlotted,
  slot-set_row,
}
use run_forge.Store.Slots.Removals.{cancel_run-Effect}

abbrev put_on : String → Option String → (String → Option String) → String → Option String
put_on t entry board u = if str_eq t u then entry else board u

-- What one call may do to the board.
pub data Move (board board' : String → Option String) : Type 0 where
  stays : board' ≡ board → Move board board'
  starts :
      (t r : String)
      → board t ≡ none
      → ((u : String) → board' u ≡ put_on t (some r) board u)
      → Move board board'
  finishes :
      (t r : String)
      → board t ≡ some r
      → ((u : String) → board' u ≡ put_on t none board u)
      → Move board board'

-- What the cancelling of the runs of some threads may do: it frees entries of these threads.
abbrev pub Frees : List String → (String → Option String) → (String → Option String) → Type 0
Frees targets board board' =
    (t : String) → (board' t ≡ board t) ⊎ ((board' t ≡ none) × (contains targets t ≡ true))

slot-nameless : (s : MemoryStore) → IsSlotted s → (t : String) → opt_eq (slot s t) "" ≡ false
slot-nameless s before t = elim (Option-cases (slot s t)) [
  | inl empty ↦ rw empty refl
  | inr (q, taken) ↦ ground (arith, holds before t "", live-nameless s before.nameless, eq_iff q "")
]

pub Shape-Move : (s s' : MemoryStore) → IsSlotted s → Shape s s' → Move (slot s) (slot s')
Shape-Move s s' before (unchanged slots lives) = stays (fun_ext slots)
Shape-Move s s' before (claimed t r free known slots lives) = elim (Option-cases (slot s t)) [
  | inl empty ↦ starts t r empty slots
  | inr (q, taken) ↦ stays (
      fun_ext
        λ u. ground (arith, slots u, slot-nameless s before t, eq_iff t u, eq_iff q r, eq_iff q ""))
]
Shape-Move s s' before (freed t r known slots lives) = elim (Option-cases (slot s t)) [
  | inl empty ↦ stays (fun_ext λ u. ground (arith, slots u, eq_iff t u))
  | inr (q, taken) ↦ elim (Bool-cases (str_eq q r)) [
    | inl same ↦ finishes t r (ground (arith, eq_iff q r)) λ u. ground (arith, slots u, eq_iff t u)
    | inr other ↦ stays (fun_ext λ u. ground (arith, slots u, eq_iff t u))
  ]
]
Shape-Move s s' before (purged t idle slots lives) = stays (
    fun_ext λ u. elim (Option-cases (slot s t)) [
      | inl empty ↦ ground (arith, slots u, eq_iff t u)
      | inr (q, taken) ↦ ground (arith, holds before t q, idle q, eq_iff t t)
    ])

keeps-Frees :
    (s s' : MemoryStore) (targets : List String)
    → s'.threads ≡ s.threads
    → Frees targets (slot s) (slot s')
unfolding slot
keeps-Frees s s' targets same t = inl (rw same refl)

releases-Frees :
    (s s' : MemoryStore) (targets : List String) (thread thread' : ThreadRow) (t id : String)
    → find_row t s.threads ≡ some thread
    → s'.threads ≡ set_row t thread' s.threads
    → thread'.executing_run_id ≡ released thread.executing_run_id id
    → contains targets t ≡ true
    → Frees targets (slot s) (slot s')
releases-Frees s s' targets thread thread' t id holder threads slot' own u =
    let here = slot-set_row s s' thread' t threads u in
    elim (Bool-cases (str_eq t u)) [
      | inr other ↦ inl (ground (arith, here))
      | inl same ↦ elim (Bool-cases (opt_eq thread.executing_run_id id)) [
        | inl released_now ↦ inr (ground (arith, here), ground (arith, eq_iff t u))
        | inr kept ↦ inl (ground (arith, here, slot-of s t holder, eq_iff t u))
      ]
    ]

cancel_run-Frees :
    (s : MemoryStore)
    → IsSlotted s
    → (targets : List String) (now id : String)
    → Frees targets (slot s) (slot (cancel_run targets now id s))
unfolding cancel_run put_run put_thread
cancel_run-Frees s before targets now id = elim (Option-cases (find_row id s.runs)) [
  | inl missing ↦ rw missing (keeps-Frees s s targets refl)
  | inr (run, found) ↦
      elim (Bool-cases
        (not (contains targets run.thread_id) || is_terminal_run_status run.status)) [
          | inl skipped ↦ rw (found, skipped) (keeps-Frees s s targets refl)
          | inr going ↦ elim (Option-cases (find_row run.thread_id s.threads)) [
            | inl absent ↦ rw (found, going, absent) (keeps-Frees s _ targets refl)
            | inr (thread, holder) ↦
                rw (found, going, holder)
                  (releases-Frees s _ targets thread _ run.thread_id id holder refl refl
                    (ground arith))
          ]
        ]
]

pub cancel_each-Frees :
    (s : MemoryStore)
    → IsSlotted s
    → (targets : List String) (now : String) (ids : List String)
    → Frees targets (slot s) (slot (cancel_each targets now ids s))
unfolding cancel_each
cancel_each-Frees s before targets now [] t = inl refl
cancel_each-Frees s before targets now (id ∷ ids) t =
    let next = cancel_run targets now id s in
    let effect = cancel_run-Effect s before targets now id in
    let first = cancel_run-Frees s before targets now id t in
    elim (cancel_each-Frees next (Effect-IsSlotted s _ before effect) targets now ids t) [
      | inl same ↦ elim first [
        | inl kept ↦ inl (same ∙ kept)
        | inr (gone, own) ↦ inr (same ∙ gone, own)
      ]
      | inr free ↦ inr free
    ]
