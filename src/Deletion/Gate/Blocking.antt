-- ===== src/Deletion/Gate/Blocking.antt =====
-- What a deletion blocks, how that changes with the ids that are added, and the events of a gate.
use text.Mathlib.TextPositions.{eq_refl}
use run_forge.Base.{
  ℕ, String, ◌≡◌, refl, ◌⊎◌, inl, inr, ◌≢◌, Bool, true, false, not, ◌||◌, Option, none, some, List,
  [], ◌∷◌, ◌++◌, arith, ◌==◌, is_empty, contains, contains-append, Bool-cases, Result, ok, err,
}
use run_forge.Deletion.Gate.{
  DeletionScope, ActiveDeletion, DeletionGate, GateError, holds, blocks, is_blocked_by, is_blocked,
  begin, add_ids, add_threads_to, add_threads, unlist, finish_deletion, enter, finish_operation,
}

-- A deletion of a space or a thread, as opposed to one of a whole tenant.
abbrev pub is_narrow : ActiveDeletion → Bool
is_narrow d = not (is_empty d.space_ids) || not (is_empty d.thread_ids)

-- `d'` blocks all that `d` blocks.
abbrev pub Covers : ActiveDeletion → ActiveDeletion → Type 0
Covers d' d = (s : DeletionScope) → blocks d s ≡ true → blocks d' s ≡ true

add_ids-keeps :
    (ids set : List String) (a : String)
    → contains set a ≡ true
    → contains (add_ids set ids) a ≡ true
unfolding add_ids
add_ids-keeps [] set a h = h
add_ids-keeps (id ∷ ids) set a h = elim (Bool-cases (contains set id)) [
  | inl old ↦ rw old (add_ids-keeps ids set a h)
  | inr new ↦
      rw new
        (add_ids-keeps ids (set ++ id ∷ []) a (ground (arith, contains-append set (id ∷ []) a)))
]

add_ids-cons : (ids set : List String) (a : String) → is_empty (add_ids (a ∷ set) ids) ≡ false
unfolding add_ids
add_ids-cons [] set a = refl
add_ids-cons (id ∷ ids) set a = elim (Bool-cases (contains (a ∷ set) id)) [
  | inl old ↦ rw old (add_ids-cons ids set a)
  | inr new ↦ rw new (add_ids-cons ids (set ++ id ∷ []) a)
]

pub add_ids-from_empty : (a : String) (ids : List String) → is_empty (add_ids [] (a ∷ ids)) ≡ false
unfolding add_ids contains
add_ids-from_empty a ids = add_ids-cons ids [] a

pub contains-add_ids : (a : String) (ids : List String) → contains (add_ids [] (a ∷ ids)) a ≡ true
unfolding add_ids contains
contains-add_ids a ids = add_ids-keeps ids (a ∷ []) a (ground (arith, eq_refl a))

holds-add_ids :
    (set ids : List String) (o : Option String)
    → holds set o ≡ true
    → holds (add_ids set ids) o ≡ true
holds-add_ids set ids none h = cc
holds-add_ids set ids (some a) h = ground (arith, add_ids-keeps ids set a)

add_ids-not_empty :
    (set ids : List String) → is_empty set ≡ false → is_empty (add_ids set ids) ≡ false
add_ids-not_empty [] ids h = cc
add_ids-not_empty (x ∷ xs) ids h = add_ids-cons ids xs x

abbrev pub extend : ActiveDeletion → List String → ActiveDeletion
extend d ids = record d { thread_ids = add_ids d.thread_ids ids }

pub is_narrow-extend :
    (d : ActiveDeletion) (ids : List String) → is_narrow d ≡ true → is_narrow (extend d ids) ≡ true
is_narrow-extend d ids h = ground (arith, add_ids-not_empty d.thread_ids ids)

-- A deletion of a space or a thread still blocks all that it blocked when threads are added to it.
pub extend-Covers :
    (d : ActiveDeletion) (ids : List String) → is_narrow d ≡ true → Covers (extend d ids) d
unfolding blocks
extend-Covers d ids n s h =
    ground (arith, holds-add_ids d.thread_ids ids s.thread_id, add_ids-not_empty d.thread_ids ids)

-- The calls that other code makes on the gate; a refused call changes nothing.
pub data Event : Type 0 where
  begin_event : DeletionScope → Event
  add_threads_event : ℕ → List String → Event
  finish_deletion_event : ℕ → Event
  enter_event : DeletionScope → Event
  finish_operation_event : ℕ → Event

abbrev pub after : DeletionGate → Result GateError (ℕ × DeletionGate) → DeletionGate
after gate (ok (key, next)) = next
after gate (err e) = gate

unfoldable pub step : Event → DeletionGate → DeletionGate
step (begin_event scope) gate = after gate (begin scope gate)
step (add_threads_event key ids) gate = add_threads key ids gate
step (finish_deletion_event key) gate = finish_deletion key gate
step (enter_event scope) gate = after gate (enter scope gate)
step (finish_operation_event key) gate = finish_operation key gate

unfoldable pub run : List Event → DeletionGate → DeletionGate
run [] gate = gate
run (e ∷ es) gate = run es (step e gate)

-- No event of the list finishes the deletion `key`.
abbrev pub KeepsOpen : ℕ → List Event → Type 0
KeepsOpen key [] = Unit
KeepsOpen key (finish_deletion_event j ∷ es) = (j ≢ key) × KeepsOpen key es
KeepsOpen key (_ ∷ es) = KeepsOpen key es

module _ (key : ℕ) (d : ActiveDeletion) where
  -- Some listed deletion `key` of the list is narrow and blocks all that `d` blocks.
  abbrev pub Guards : List ActiveDeletion → Type 0
  Guards [] = ⊥
  Guards (c ∷ cs) =
      ((c.key ≡ key) × (c.listed ≡ true) × (is_narrow c ≡ true) × Covers c d) ⊎ Guards cs

  Guards-blocks :
      (cs : List ActiveDeletion) (s : DeletionScope)
      → Guards cs
      → blocks d s ≡ true
      → is_blocked_by cs s ≡ true
  unfolding is_blocked_by
  Guards-blocks [] s g h = absurd g
  Guards-blocks (c ∷ cs) s (inl (_, listed, _, covers)) h = ground (arith, covers s h)
  Guards-blocks (c ∷ cs) s (inr g) h = ground (arith, Guards-blocks cs s g h)

  Guards-add_threads_to :
      (j : ℕ) (ids : List String) (cs : List ActiveDeletion)
      → Guards cs
      → Guards (add_threads_to j ids cs)
  unfolding add_threads_to
  Guards-add_threads_to j ids [] g = g
  Guards-add_threads_to j ids (c ∷ cs) (inr g) = inr (Guards-add_threads_to j ids cs g)
  Guards-add_threads_to j ids (c ∷ cs) (inl (k, listed, narrow, covers)) =
      elim (Bool-cases (c.key == j)) [
        | inl same ↦ rw same (
            inl (
              k,
              listed,
              is_narrow-extend c ids narrow,
              λ s h. extend-Covers c ids narrow s (covers s h),
            ))
        | inr other ↦ rw other (inl (k, listed, narrow, covers))
      ]

  Guards-unlist : (j : ℕ) (cs : List ActiveDeletion) → j ≢ key → Guards cs → Guards (unlist j cs)
  unfolding unlist
  Guards-unlist j [] ne g = g
  Guards-unlist j (c ∷ cs) ne (inr g) = inr (Guards-unlist j cs ne g)
  Guards-unlist j (c ∷ cs) ne (inl (k, listed, narrow, covers)) = elim (Bool-cases (c.key == j)) [
    | inl same ↦ absurd (ne (ground arith))
    | inr other ↦ rw other (inl (k, listed, narrow, covers))
  ]

  pub Guards-step :
      (e : Event) (gate : DeletionGate)
      → KeepsOpen key (e ∷ [])
      → Guards gate.active
      → Guards (step e gate).active
  unfolding step begin add_threads finish_deletion enter finish_operation
  Guards-step (begin_event scope) gate o g = elim (Bool-cases (is_blocked gate scope)) [
    | inl refused ↦ rw refused g
    | inr open_gate ↦ rw open_gate (inr g)
  ]
  Guards-step (add_threads_event j ids) gate o g = Guards-add_threads_to j ids gate.active g
  Guards-step (finish_deletion_event j) gate o g = Guards-unlist j gate.active o.0 g
  Guards-step (enter_event scope) gate o g = elim (Bool-cases (is_blocked gate scope)) [
    | inl refused ↦ rw refused g
    | inr open_gate ↦ rw open_gate g
  ]
  Guards-step (finish_operation_event j) gate o g = g

  pub Guards-enter :
      (gate : DeletionGate) (s : DeletionScope)
      → Guards gate.active
      → blocks d s ≡ true
      → is_blocked gate s ≡ true
  unfolding is_blocked
  Guards-enter gate s g h = Guards-blocks gate.active s g h

pub KeepsOpen-head :
    (key : ℕ) (e : Event) (es : List Event) → KeepsOpen key (e ∷ es) → KeepsOpen key (e ∷ [])
KeepsOpen-head key (begin_event _) es o = tt
KeepsOpen-head key (finish_deletion_event j) es o = (o.0, tt)
KeepsOpen-head key _ es o = tt

pub KeepsOpen-tail :
    (key : ℕ) (e : Event) (es : List Event) → KeepsOpen key (e ∷ es) → KeepsOpen key es
KeepsOpen-tail key (begin_event _) es o = o
KeepsOpen-tail key (finish_deletion_event j) es o = o.1
KeepsOpen-tail key _ es o = o
