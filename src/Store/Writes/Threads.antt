-- ===== src/Store/Writes/Threads.antt =====
-- server/src/store/memoryStore.ts, class MemoryStore: the write of each operation on threads.
use run_forge.Base.{
  String, str_eq, not, Option, none, some, [], ◌∷◌, ◌≡◌, refl, arith, inl, inr, Bool-cases,
  Option-cases, find_row, set_row, truthy, OnOk, OnOk-bind, require_that, ap, Fields, trim,
}
use run_forge.Store.Rows.{Scope}
use run_forge.Store.State.{MemoryStore, StoredSpace, put_thread, owned_thread, can_write}
use run_forge.Store.Runs.{or_value}
use run_forge.Store.Threads.{
  has_active_shell_command, existing_default, make_default_space, takes_threads, create_thread_in,
  ensure_default_space_for_tests, create_thread, set_thread_title_if_empty, has_active_run,
  delete_thread, NoticeInput, add_thread_notice,
}
use run_forge.Store.Writes.{Write, kept, changes_thread, opens_thread, purges}

pub set_thread_title_if_empty-Write :
    (s : MemoryStore) (scope : Scope) (id now title : String)
    → Write scope s (set_thread_title_if_empty s scope id now title).0
unfolding set_thread_title_if_empty put_thread
set_thread_title_if_empty-Write s scope id now title =
    elim (Option-cases (owned_thread s scope id)) [
      | inl missing ↦ rw missing (kept refl refl)
      | inr (thread, found) ↦
          elim (Bool-cases (not (str_eq (trim (or_value thread.title "")) ""))) [
            | inl titled ↦ rw (found, titled) (kept refl refl)
            | inr untitled ↦ rw (found, untitled) (changes_thread id thread _ found refl refl refl)
          ]
    ]

pub delete_thread-Write :
    (s : MemoryStore) (scope : Scope) (id : String)
    → OnOk (λ done. Write scope s done.0) (delete_thread s scope id)
unfolding delete_thread
delete_thread-Write s scope id = elim (Option-cases (owned_thread s scope id)) [
  | inl missing ↦ rw missing (kept refl refl)
  | inr (thread, found) ↦ rw found (
      OnOk-bind _ (require_that (truthy thread.archived_at) _) _ λ _ archived.
        OnOk-bind _ (require_that (not (has_active_run s id)) _) _ λ _ idle.
          OnOk-bind _ (require_that (not (has_active_shell_command s (id ∷ []))) _) _
            λ _ quiet. purges id thread found (ground (arith, idle)) refl)
]

module _ (config : Fields) (s : MemoryStore) (scope : Scope) (id now : String)
    (title : Option String) (fresh : find_row id s.threads ≡ none) where
  create_thread_in-Write :
      (ensured : MemoryStore)
      → ensured.threads ≡ s.threads
      → ensured.runs ≡ s.runs
      → (space : Option StoredSpace)
      → Write scope s (create_thread_in config ensured scope id now title space).0
  unfolding put_thread
  create_thread_in-Write ensured threads runs none = kept threads runs
  create_thread_in-Write ensured threads runs (some space) =
      elim (Bool-cases (not (takes_threads config scope space))) [
        | inl refused ↦ rw refused (kept threads runs)
        | inr taken ↦ elim (Bool-cases (not (can_write ensured scope space.id))) [
          | inl hidden ↦ rw (taken, hidden) (kept threads runs)
          | inr visible ↦
              rw (taken, visible) (opens_thread id _ fresh (ap (set_row id _) threads) runs refl)
        ]
      ]

  pub create_thread-Write :
      (new_space_id : String) (space_id : Option String)
      → Write scope s (create_thread config s scope id new_space_id now title space_id).0
  unfolding create_thread ensure_default_space_for_tests
  create_thread-Write new_space_id space_id = elim (Bool-cases (truthy space_id)) [
    | inl given ↦
        rw given (create_thread_in-Write s refl refl (find_row (or_value space_id "") s.spaces))
    | inr missing ↦
        elim (Option-cases (existing_default config s (find_row scope.tenant_id s.tenants))) [
          | inl no_default ↦
              let made : MemoryStore × StoredSpace =
                make_default_space config s scope new_space_id now in
              rw (missing, no_default) (create_thread_in-Write made.0 refl refl (some made.1))
          | inr (space, default) ↦
              rw (missing, default) (create_thread_in-Write s refl refl (some space))
        ]
  ]

pub add_thread_notice-Write :
    (s : MemoryStore) (scope : Scope) (now : String) (input : NoticeInput)
    → OnOk (λ done. Write scope s done.0) (add_thread_notice s scope now input)
unfolding add_thread_notice
add_thread_notice-Write s scope now input =
    elim (Option-cases (owned_thread s scope input.thread_id)) [
      | inl missing ↦ rw missing tt
      | inr (thread, found) ↦ rw found (kept refl refl)
    ]
