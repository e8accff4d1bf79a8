-- ===== src/Deletion/Gate.antt =====
-- server/src/deletion/gate.ts, class DeletionGate.
-- An object that JavaScript holds by reference has a key, and stays in its list when it leaves the
-- set: `listed` says whether the set holds it. A promise is the Boolean that says it is resolved.
-- Sets list their newest member first; nothing in the code depends on their order.
pub mod Blocking
pub mod Drain
pub mod Window
use run_forge.Base.{
  ℕ, ◌+◌, String, str_eq, Bool, true, false, not, ◌&&◌, ◌||◌, Option, none, some, List, [], ◌∷◌,
  ◌++◌, ◌==◌, if◌then◌else◌, truthy, is_empty, contains, find, any, all, Result, ok, err,
}

pub record DeletionScope : Type 0 where
  pub tenant_id : String
  pub space_id : Option String
  pub thread_id : Option String

pub record ActiveDeletion : Type 0 where
  pub key : ℕ
  pub tenant_id : String
  pub space_ids : List String
  pub thread_ids : List String
  pub listed : Bool

pub record ActiveOperation : Type 0 where
  pub key : ℕ
  pub scope : DeletionScope
  pub listed : Bool
  pub finished : Bool
  pub resolved : Bool

pub record DeletionGate : Type 0 where
  pub active : List ActiveDeletion
  pub operations : List ActiveOperation
  pub next_key : ℕ

abbrev pub empty_gate : DeletionGate
empty_gate = record { active = []; operations = []; next_key = 0 }

pub data GateError : Type 0 where
  deletion_in_progress : GateError

-- `x && set.has(x)` for an optional id.
abbrev pub holds : List String → Option String → Bool
holds ids none = false
holds ids (some s) = not (str_eq s "") && contains ids s

unfoldable pub blocks : ActiveDeletion → DeletionScope → Bool
blocks deletion scope =
    if not (str_eq deletion.tenant_id scope.tenant_id)
    then false
    else if not (truthy scope.space_id) && not (truthy scope.thread_id)
    then true
    else if is_empty deletion.space_ids && is_empty deletion.thread_ids
    then true
    else if holds deletion.space_ids scope.space_id
    then true
    else holds deletion.thread_ids scope.thread_id

-- The loop of `isBlocked`, over the members of the set.
unfoldable pub is_blocked_by : List ActiveDeletion → DeletionScope → Bool
is_blocked_by [] scope = false
is_blocked_by (d ∷ ds) scope = d.listed && blocks d scope || is_blocked_by ds scope

unfoldable pub is_blocked : DeletionGate → DeletionScope → Bool
unfolding is_blocked_by
is_blocked gate scope = is_blocked_by gate.active scope

-- `new Set(id ? [id] : [])`
abbrev pub singleton_set : Option String → List String
singleton_set none = []
singleton_set (some s) = if str_eq s "" then [] else s ∷ []

abbrev pub new_deletion : ℕ → DeletionScope → ActiveDeletion
new_deletion key scope = record {
  key = key;
  tenant_id = scope.tenant_id;
  space_ids = singleton_set scope.space_id;
  thread_ids = singleton_set scope.thread_id;
  listed = true;
}

-- `begin` returns the registration, which is the key of its deletion.
unfoldable pub begin : DeletionScope → DeletionGate → Result GateError (ℕ × DeletionGate)
unfolding is_blocked
begin scope gate =
    if is_blocked gate scope
    then err deletion_in_progress
    else ok (
      gate.next_key,
      record gate {
        active = new_deletion gate.next_key scope ∷ gate.active;
        next_key = gate.next_key + 1;
      },
    )

-- A set of ids after `add` of each of `ids`.
unfoldable pub add_ids : List String → List String → List String
add_ids set [] = set
add_ids set (id ∷ ids) = add_ids (if contains set id then set else set ++ id ∷ []) ids

-- A deletion's object is changed through its registration, also when the set no longer holds it.
unfoldable pub add_threads_to : ℕ → List String → List ActiveDeletion → List ActiveDeletion
add_threads_to key ids [] = []
add_threads_to key ids (d ∷ ds) =
    (if d.key == key then record d { thread_ids = add_ids d.thread_ids ids } else d)
    ∷ add_threads_to key ids ds

unfoldable pub add_threads : ℕ → List String → DeletionGate → DeletionGate
unfolding add_threads_to
add_threads key ids gate = record gate { active = add_threads_to key ids gate.active }

unfoldable pub unlist : ℕ → List ActiveDeletion → List ActiveDeletion
unlist key [] = []
unlist key (d ∷ ds) = (if d.key == key then record d { listed = false } else d) ∷ unlist key ds

-- `finish` of a deletion's registration.
unfoldable pub finish_deletion : ℕ → DeletionGate → DeletionGate
unfolding unlist
finish_deletion key gate = record gate { active = unlist key gate.active }

unfoldable pub enter : DeletionScope → DeletionGate → Result GateError (ℕ × DeletionGate)
unfolding is_blocked
enter scope gate =
    if is_blocked gate scope
    then err deletion_in_progress
    else ok (
      gate.next_key,
      record gate {
        operations =
            record {
              key = gate.next_key;
              scope = scope;
              listed = true;
              finished = false;
              resolved = false;
            }
            ∷ gate.operations;
        next_key = gate.next_key + 1;
      },
    )

-- The closure's own flag makes a second `finish` do nothing.
unfoldable pub close : ActiveOperation → ActiveOperation
close op =
    if op.finished then op else record op { finished = true; listed = false; resolved = true }

unfoldable pub close_key : ℕ → List ActiveOperation → List ActiveOperation
unfolding close
close_key key [] = []
close_key key (op ∷ ops) = (if op.key == key then close op else op) ∷ close_key key ops

-- `finish` of an operation.
unfoldable pub finish_operation : ℕ → DeletionGate → DeletionGate
unfolding close_key
finish_operation key gate = record gate { operations = close_key key gate.operations }

-- The keys of the operations whose `done` the deletion waits for.
unfoldable pub pending_of : ActiveDeletion → List ActiveOperation → List ℕ
pending_of deletion [] = []
pending_of deletion (op ∷ ops) =
    let rest = pending_of deletion ops in
    if op.listed && blocks deletion op.scope then op.key ∷ rest else rest

-- `Promise.all(pending)` has resolved when every one of them has.
unfoldable pub is_resolved : ℕ → List ActiveOperation → Bool
is_resolved key [] = true
is_resolved key (op ∷ ops) = (not (op.key == key) || op.resolved) && is_resolved key ops

unfoldable pub all_resolved : List ℕ → List ActiveOperation → Bool
unfolding is_resolved
all_resolved keys ops = all (λ key. is_resolved key ops) keys
