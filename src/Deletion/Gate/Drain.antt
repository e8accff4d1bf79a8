-- ===== src/Deletion/Gate/Drain.antt =====
-- What a deletion may rely on between its registration and its end.
use mathlib.Core.Path.{subst}
use run_forge.Base.{
  ℕ, ◌≡◌, refl, sym, inl, inr, Bool, true, false, ◌&&◌, List, [], ◌∷◌, arith, ◌==◌, ==_self, ==_iff,
  Bool-cases, All, any,
}
use run_forge.Deletion.Gate.{
  ActiveDeletion, ActiveOperation, DeletionGate, blocks, is_blocked, begin, add_threads,
  finish_deletion, enter, close_key, finish_operation, pending_of, is_resolved, all_resolved,
}
use run_forge.Deletion.Gate.Blocking.{
  Event, begin_event, add_threads_event, finish_deletion_event, enter_event, finish_operation_event,
  step, run, KeepsOpen, Guards, Guards-step, Guards-enter, KeepsOpen-head, KeepsOpen-tail,
}

mem : ℕ → List ℕ → Bool
mem key keys = any (λ k. k == key) keys

module _ (key : ℕ) (d : ActiveDeletion) where
  pub Guards-run :
      (es : List Event) (gate : DeletionGate)
      → KeepsOpen key es
      → Guards key d gate.active
      → Guards key d (run es gate).active
  unfolding run
  Guards-run [] gate o g = g
  Guards-run (e ∷ es) gate o g =
      Guards-run es (step e gate) (KeepsOpen-tail key e es o)
        (Guards-step key d e gate (KeepsOpen-head key e es o) g)

  -- An operation is known to a wait on `pending`, if it is in the range of `d` and not finished.
  abbrev Known : List ℕ → ActiveOperation → Type 0
  Known pending op =
      (op.listed ≡ true → op.resolved ≡ false)
      × (op.listed ≡ true → blocks d op.scope ≡ true → mem op.key pending ≡ true)

  Known-close_key :
      (pending : List ℕ) (j : ℕ) (ops : List ActiveOperation)
      → All (Known pending) ops
      → All (Known pending) (close_key j ops)
  unfolding close_key
  Known-close_key pending j [] h = tt
  Known-close_key pending j (op ∷ ops) (h, hs) =
      (ground (arith, h), Known-close_key pending j ops hs)

  Known-step :
      (pending : List ℕ) (e : Event) (gate : DeletionGate)
      → Guards key d gate.active
      → All (Known pending) gate.operations
      → All (Known pending) (step e gate).operations
  unfolding step begin add_threads finish_deletion enter finish_operation
  Known-step pending (begin_event scope) gate g h = elim (Bool-cases (is_blocked gate scope)) [
    | inl refused ↦ rw refused h
    | inr open_gate ↦ rw open_gate h
  ]
  Known-step pending (add_threads_event j ids) gate g h = h
  Known-step pending (finish_deletion_event j) gate g h = h
  Known-step pending (enter_event scope) gate g h = elim (Bool-cases (is_blocked gate scope)) [
    | inl refused ↦ rw refused h
    | inr open_gate ↦
        rw open_gate (((λ _. refl), (λ _ b. cc (Guards-enter key d gate scope g b))), h)
  ]
  Known-step pending (finish_operation_event j) gate g h =
      Known-close_key pending j gate.operations h

  Known-run :
      (pending : List ℕ) (es : List Event) (gate : DeletionGate)
      → KeepsOpen key es
      → Guards key d gate.active
      → All (Known pending) gate.operations
      → All (Known pending) (run es gate).operations
  unfolding run
  Known-run pending [] gate o g h = h
  Known-run pending (e ∷ es) gate o g h =
      Known-run pending es (step e gate) (KeepsOpen-tail key e es o)
        (Guards-step key d e gate (KeepsOpen-head key e es o) g) (Known-step pending e gate g h)

-- No operation that the set of a gate holds has its promise resolved.
abbrev pub AreRunning : List ActiveOperation → Type 0
AreRunning ops = All (λ op. op.listed ≡ true → op.resolved ≡ false) ops

-- No operation that the set of a gate holds is in the range of the deletion.
abbrev pub AreOutside : ActiveDeletion → List ActiveOperation → Type 0
AreOutside d ops = All (λ op. op.listed ≡ true → blocks d op.scope ≡ false) ops

module _ (d : ActiveDeletion) where
  mem-pending_cons : (k j : ℕ) (keys : List ℕ) → mem k keys ≡ true → mem k (j ∷ keys) ≡ true
  unfolding mem
  mem-pending_cons k j keys h = ground arith

  Known-weaken :
      (j : ℕ) (pending : List ℕ) (key : ℕ) (ops : List ActiveOperation)
      → All (Known key d pending) ops
      → All (Known key d (j ∷ pending)) ops
  Known-weaken j pending key [] h = tt
  Known-weaken j pending key (op ∷ ops) (h, hs) =
      ((h.0, λ l b. mem-pending_cons op.key j pending (h.1 l b)), Known-weaken j pending key ops hs)

  pending_of-cons_waits :
      (op : ActiveOperation) (ops : List ActiveOperation)
      → (op.listed && blocks d op.scope) ≡ true
      → pending_of d (op ∷ ops) ≡ op.key ∷ pending_of d ops
  unfolding pending_of
  pending_of-cons_waits op ops h = rw h

  pending_of-cons_free :
      (op : ActiveOperation) (ops : List ActiveOperation)
      → (op.listed && blocks d op.scope) ≡ false
      → pending_of d (op ∷ ops) ≡ pending_of d ops
  unfolding pending_of
  pending_of-cons_free op ops h = rw h

  not_known_of_free :
      (op : ActiveOperation) (pending : List ℕ)
      → (op.listed && blocks d op.scope) ≡ false
      → op.listed ≡ true
      → blocks d op.scope ≡ true
      → mem op.key pending ≡ true
  not_known_of_free op pending f p q = ground arith

  mem-cons_self : (k : ℕ) (pending : List ℕ) → mem k (k ∷ pending) ≡ true
  unfolding mem
  mem-cons_self k pending = rw (==_self k)

  Known-pending_of :
      (key : ℕ) (ops : List ActiveOperation)
      → AreRunning ops
      → All (Known key d (pending_of d ops)) ops
  Known-pending_of key [] h = tt
  Known-pending_of key (op ∷ ops) (h, hs) = elim (Bool-cases (op.listed && blocks d op.scope)) [
    | inl waits ↦
        subst (λ p. All (Known key d p) (op ∷ ops)) (sym (pending_of-cons_waits op ops waits))
          (
            (h, λ l b. mem-cons_self op.key (pending_of d ops)),
            Known-weaken op.key (pending_of d ops) key ops (Known-pending_of key ops hs),
          )
    | inr free ↦
        subst (λ p. All (Known key d p) (op ∷ ops)) (sym (pending_of-cons_free op ops free))
          ((h, not_known_of_free op (pending_of d ops) free), Known-pending_of key ops hs)
  ]

  resolved_of_mem :
      (k : ℕ) (pending : List ℕ) (ops : List ActiveOperation)
      → all_resolved pending ops ≡ true
      → mem k pending ≡ true
      → is_resolved k ops ≡ true
  unfolding all_resolved mem
  resolved_of_mem k [] ops r m = cc
  resolved_of_mem k (j ∷ pending) ops r m = elim (Bool-cases (j == k)) [
    | inl same ↦ rw (← (==_iff j k).0 same) (ground arith)
    | inr other ↦ resolved_of_mem k pending ops (ground arith) (ground arith)
  ]

  outside_of_resolved :
      (key : ℕ) (pending : List ℕ) (ops all_ops : List ActiveOperation)
      → All (Known key d pending) ops
      → ((k : ℕ) → mem k pending ≡ true → is_resolved k ops ≡ true)
      → AreOutside d ops
  unfolding is_resolved
  outside_of_resolved key pending [] all_ops h r = tt
  outside_of_resolved key pending (op ∷ ops) all_ops (h, hs) r = (
    λ l. elim (Bool-cases (blocks d op.scope)) [
      | inl b ↦ ground (arith, h.0 l, r op.key (h.1 l b), ==_self op.key)
      | inr b ↦ b
    ],
    outside_of_resolved key pending ops all_ops hs λ k m. ground (arith, r k m),
  )

-- A wait of a deletion of spaces or threads that has ended leaves no operation running in the
-- deletion's range, whatever calls came in between, if the deletion was not finished.
pub wait_excludes :
    (key : ℕ) (d : ActiveDeletion) (gate : DeletionGate) (es : List Event)
    → Guards key d gate.active
    → AreRunning gate.operations
    → KeepsOpen key es
    → all_resolved (pending_of d gate.operations) (run es gate).operations ≡ true
    → AreOutside d (run es gate).operations
wait_excludes key d gate es g running o r =
    let pending = pending_of d gate.operations in
    let known =
      Known-run key d pending es gate o g (Known-pending_of d key gate.operations running) in
    outside_of_resolved d key pending (run es gate).operations [] known
      λ k m. resolved_of_mem d k pending (run es gate).operations r m
