-- ===== src/Store/Slots.antt =====
-- server/src/store/memoryStore.ts, class MemoryStore: the execution slot of a thread against the runs
-- that are not finished. `slot` and `live` are the two views; `Shape` lists the ways in which an
-- operation changes them, and every one of these keeps them in agreement.
pub mod Board
pub mod Effects
pub mod Removals
pub mod Calls
use run_forge.Base.{
  String, str_eq, eq_iff, Bool, true, false, Option, none, some, List, if◌then◌else◌, ◌≡◌, refl,
  sym, ◌∙◌, ◌⊎◌, arith, inl, inr, Bool-cases, Option-cases, find_row, set_row, find_row-set_row,
  truthy,
}
use run_forge.Spaces.Access.{opt_eq}
use run_forge.Store.Rows.{ThreadRow, RunRow, is_terminal_run_status}
use run_forge.Store.State.{MemoryStore}
use run_forge.Store.Runs.{taken_by_other}
use run_forge.Store.Runs.Status.{released}

abbrev executing : Option ThreadRow → Option String
executing none = none
executing (some thread) = thread.executing_run_id

-- The run that holds the slot of a thread.
unfoldable pub slot : MemoryStore → String → Option String
slot s thread_id = executing (find_row thread_id s.threads)

abbrev pub thread_if_live : Option RunRow → Option String
thread_if_live none = none
thread_if_live (some run) = if is_terminal_run_status run.status then none else some run.thread_id

-- The thread of a run that is not finished.
unfoldable pub live : MemoryStore → String → Option String
live s run_id = thread_if_live (find_row run_id s.runs)

pub slot-set_row :
    (s s' : MemoryStore) (thread : ThreadRow) (id : String)
    → s'.threads ≡ set_row id thread s.threads
    → (t : String) → slot s' t ≡ (if str_eq id t then thread.executing_run_id else slot s t)
unfolding slot
slot-set_row s s' thread id e t = elim (Bool-cases (str_eq id t)) [
  | inl same ↦ rw (e, find_row-set_row t id thread s.threads, same) refl
  | inr other ↦ rw (e, find_row-set_row t id thread s.threads, other) refl
]

pub live-set_row :
    (s s' : MemoryStore) (run : RunRow) (id : String)
    → s'.runs ≡ set_row id run s.runs
    → (r : String) → live s' r ≡ (if str_eq id r then thread_if_live (some run) else live s r)
unfolding live
live-set_row s s' run id e r = elim (Bool-cases (str_eq id r)) [
  | inl same ↦ rw (e, find_row-set_row r id run s.runs, same) refl
  | inr other ↦ rw (e, find_row-set_row r id run s.runs, other) refl
]

-- A slot holds exactly the run of its thread that is not finished.
pub record IsSlotted (s : MemoryStore) : Type 0 where
  pub agrees : (t r : String) → opt_eq (live s r) t ≡ opt_eq (slot s t) r
  pub nameless : find_row "" s.runs ≡ none

opt_eq-some : (o : Option String) (a : String) → opt_eq o a ≡ true → o ≡ some a
opt_eq-some none a e = cc
opt_eq-some (some b) a e = ground (arith, eq_iff b a)

some-opt_eq : (o : Option String) (a : String) → o ≡ some a → opt_eq o a ≡ true
some-opt_eq o a e = rw e (ground (arith, eq_iff a a))

module _ {s : MemoryStore} (slotted : IsSlotted s) (t r : String) where
  pub held : live s r ≡ some t → slot s t ≡ some r
  held e = opt_eq-some (slot s t) r (sym (slotted.agrees t r) ∙ some-opt_eq (live s r) t e)

  pub holds : slot s t ≡ some r → live s r ≡ some t
  holds e = opt_eq-some (live s r) t (slotted.agrees t r ∙ some-opt_eq (slot s t) r e)

-- What an operation does to the slots and to the runs that are not finished.
pub data Shape (s s' : MemoryStore) : Type 0 where
  unchanged :
      ((t : String) → slot s' t ≡ slot s t) → ((r : String) → live s' r ≡ live s r) → Shape s s'
  claimed :
      (t r : String)
      → taken_by_other (slot s t) r ≡ false
      → (live s r ≡ none) ⊎ (live s r ≡ some t)
      → ((u : String) → slot s' u ≡ (if str_eq t u then some r else slot s u))
      → ((q : String) → live s' q ≡ (if str_eq r q then some t else live s q))
      → Shape s s'
  freed :
      (t r : String)
      → (live s r ≡ none) ⊎ (live s r ≡ some t)
      → ((u : String) → slot s' u ≡ (if str_eq t u then released (slot s u) r else slot s u))
      → ((q : String) → live s' q ≡ (if str_eq r q then none else live s q))
      → Shape s s'
  purged :
      (t : String)
      → ((q : String) → opt_eq (live s q) t ≡ false)
      → ((u : String) → slot s' u ≡ (if str_eq t u then none else slot s u))
      → ((q : String) → live s' q ≡ live s q)
      → Shape s s'

-- The same, with no run under the empty id.
pub record Effect (s s' : MemoryStore) : Type 0 where
  pub shape : Shape s s'
  pub nameless : find_row "" s'.runs ≡ none

-- Two options that have the values for each other.
agree :
    (first second : Option String) (a b : String)
    → (first ≡ some a → second ≡ some b)
    → (second ≡ some b → first ≡ some a)
    → opt_eq first a ≡ opt_eq second b
agree first second a b there back = elim (Bool-cases (opt_eq first a)) [
  | inl same ↦ rw (there (opt_eq-some first a same), same) (sym (ground (arith, eq_iff b b)))
  | inr other ↦ elim (Bool-cases (opt_eq second b)) [
    | inl same ↦ ground (arith, back (opt_eq-some second b same), eq_iff a a)
    | inr also ↦ rw (other, also) refl
  ]
]

pub live-nameless : (s : MemoryStore) → find_row "" s.runs ≡ none → live s "" ≡ none
unfolding live
live-nameless s e = rw e refl

module _ (s s' : MemoryStore) (before : IsSlotted s) where
  keeps-held : Shape s s' → (t r : String) → live s' r ≡ some t → slot s' t ≡ some r
  keeps-held (unchanged slots lives) t r e = ground (arith, slots t, lives r, held before t r)
  keeps-held (claimed u q free known slots lives) t r e = ground (
    arith,
    slots t,
    lives r,
    held before t r,
    eq_iff u t,
    eq_iff q r,
    eq_iff r q,
    eq_iff r "",
    live-nameless s before.nameless,
  )
  keeps-held (freed u q known slots lives) t r e =
      ground (arith, slots t, lives r, held before t r, eq_iff u t, eq_iff q r, eq_iff r q)
  keeps-held (purged u idle slots lives) t r e =
      ground (arith, slots t, lives r, idle r, held before t r, eq_iff u t, eq_iff t u)

  keeps-holds : Shape s s' → (t r : String) → slot s' t ≡ some r → live s' r ≡ some t
  keeps-holds (unchanged slots lives) t r e = ground (arith, slots t, lives r, holds before t r)
  keeps-holds (claimed u q free known slots lives) t r e =
      ground (arith, slots t, lives r, holds before t r, eq_iff u t, eq_iff q r)
  keeps-holds (freed u q known slots lives) t r e =
      ground (arith, slots t, lives r, holds before t r, eq_iff u t, eq_iff q r, eq_iff r q)
  keeps-holds (purged u idle slots lives) t r e =
      ground (arith, slots t, lives r, holds before t r, eq_iff u t)

  pub Effect-IsSlotted : Effect s s' → IsSlotted s'
  Effect-IsSlotted effect = record {
    agrees = λ t r.
        agree (live s' r) (slot s' t) t r (keeps-held effect.shape t r)
          (keeps-holds effect.shape t r);
    nameless = effect.nameless;
  }
