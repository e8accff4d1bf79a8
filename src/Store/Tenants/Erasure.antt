-- ===== src/Store/Tenants/Erasure.antt =====
-- server/src/store/memoryStore.ts, class MemoryStore: what is left of a tenant that is deleted.
use run_forge.Base.{
  String, str_eq, eq_iff, Bool, false, not, Option, none, some, List, [], ◌∷◌, if◌then◌else◌,
  contains, ◌≡◌, refl, sym, ap, ◌∙◌, arith, inl, inr, Bool-cases, Option-cases, Table, holds_row,
  find_row, remove_rows, ids_where, any_row, find_row-remove_rows, contains-ids_where,
  any_row-witness, ok, OnOk, OnOk-bind, OnOk-value, require_that,
}
use run_forge.Spaces.Rows.{TenantRow}
use run_forge.Store.Rows.{ThreadRow, RunRow}
use run_forge.Store.State.{MemoryStore}
use run_forge.Store.Threads.{purge_thread, run_ids_of, has_active_shell_command}
use run_forge.Store.Tenants.{
  any_active_run, purge_threads, threads_of_tenant, spaces_of_tenant, erase_tenant, delete_tenant,
}

dropped :
    {A : Type 0} (p : A → Bool) (o : Option A)
    → holds_row p (if holds_row p o then none else o) ≡ false
dropped p none = refl
dropped p (some row) = elim (Bool-cases (p row)) [
  | inl passes ↦ rw passes refl
  | inr fails ↦ rw (fails, fails) refl
]

-- The rows that pass a test are removed, so that none passes it.
any_row-remove_rows :
    {A : Type 0} (p : A → Bool) (t : Table A) → any_row p (remove_rows (ids_where p t) t) ≡ false
any_row-remove_rows p t = elim (Bool-cases (any_row p (remove_rows (ids_where p t) t))) [
  | inr none_left ↦ none_left
  | inl left ↦
      let (key, row, found, passes) = any_row-witness p (remove_rows (ids_where p t) t) left in
      let listed = contains-ids_where p key t in
      let removed =
        find_row-remove_rows key (ids_where p t) t
        ∙ ap (λ b. if b then none else find_row key t) listed in
      let gone : p row ≡ false =
        ap (holds_row p) (sym found ∙ removed) ∙ dropped p (find_row key t) in
      ground (arith, passes, gone)
]

-- A row of a thread that goes.
purge_threads-threads :
    (ids : List String) (s : MemoryStore) (j : String)
    → find_row j (purge_threads ids s).threads
      ≡ (if contains ids j then none else find_row j s.threads)
unfolding purge_threads purge_thread contains
purge_threads-threads [] s j = refl
purge_threads-threads (id ∷ ids) s j =
    let rest = purge_threads-threads ids (purge_thread id s) j in
    ground (arith, rest, find_row-remove_rows j (id ∷ []) s.threads)

abbrev outside : List String → Option RunRow → Option RunRow
outside ids none = none
outside ids (some run) = if contains ids run.thread_id then none else some run

purge_thread-runs :
    (id : String) (s : MemoryStore) (r : String)
    → find_row r (purge_thread id s).runs ≡ outside (id ∷ []) (find_row r s.runs)
unfolding purge_thread run_ids_of contains
purge_thread-runs id s r =
    let listed = contains-ids_where (λ run. str_eq run.thread_id id) r s.runs in
    let removed = find_row-remove_rows r (run_ids_of s id) s.runs in
    elim (Option-cases (find_row r s.runs)) [
      | inl missing ↦ ground (arith, listed, removed)
      | inr (run, found) ↦
          ground (arith, listed, removed, eq_iff run.thread_id id, eq_iff id run.thread_id)
    ]

outside-outside :
    (id : String) (ids : List String) (o : Option RunRow)
    → outside ids (outside (id ∷ []) o) ≡ outside (id ∷ ids) o
unfolding contains
outside-outside id ids none = refl
outside-outside id ids (some run) = ground arith

outside-nil : (o : Option RunRow) → o ≡ outside [] o
unfolding contains
outside-nil none = refl
outside-nil (some run) = refl

purge_threads-runs :
    (ids : List String) (s : MemoryStore) (r : String)
    → find_row r (purge_threads ids s).runs ≡ outside ids (find_row r s.runs)
unfolding purge_threads
purge_threads-runs [] s r = outside-nil (find_row r s.runs)
purge_threads-runs (id ∷ ids) s r =
    purge_threads-runs ids (purge_thread id s) r
    ∙ ap (outside ids) (purge_thread-runs id s r)
    ∙ outside-outside id ids (find_row r s.runs)

purge_threads-spaces :
    (ids : List String) (s : MemoryStore) → (purge_threads ids s).spaces ≡ s.spaces
unfolding purge_threads purge_thread
purge_threads-spaces [] s = refl
purge_threads-spaces (id ∷ ids) s = purge_threads-spaces ids (purge_thread id s)

-- No row of the tenant is left, and no run of one of its threads.
pub record IsErased (id : String) (before after : MemoryStore) : Type 0 where
  pub tenant : find_row id after.tenants ≡ none
  pub threads : any_row (λ thread. str_eq thread.tenant_id id) after.threads ≡ false
  pub runs :
      any_row (λ run. contains (threads_of_tenant before id) run.thread_id) after.runs ≡ false
  pub spaces : any_row (λ space. str_eq space.tenant_id id) after.spaces ≡ false
  pub users : any_row (λ user. str_eq user.tenant_id id) after.users ≡ false
  pub auth_tokens : any_row (λ token. str_eq token.tenant_id id) after.auth_tokens ≡ false
  pub push_subscriptions :
      any_row (λ subscription. str_eq subscription.tenant_id id) after.push_subscriptions ≡ false

-- A test that no row passes that is found.
pub no_row :
    {A : Type 0} (p : A → Bool) (t : Table A)
    → ((key : String) → holds_row p (find_row key t) ≡ false)
    → any_row p t ≡ false
no_row p t none_passes = elim (Bool-cases (any_row p t)) [
  | inr none_left ↦ none_left
  | inl left ↦
      let (key, row, found, passes) = any_row-witness p t left in
      let fails : p row ≡ false = ap (holds_row p) (sym found) ∙ none_passes key in
      ground (arith, passes, fails)
]

outside-none :
    (ids : List String) (o : Option RunRow)
    → holds_row (λ run. contains ids run.thread_id) (outside ids o) ≡ false
outside-none ids none = refl
outside-none ids (some run) = elim (Bool-cases (contains ids run.thread_id)) [
  | inl listed ↦ rw listed refl
  | inr unlisted ↦ rw (unlisted, unlisted) refl
]

erased-threads :
    (s : MemoryStore) (id key : String)
    → holds_row
        (λ thread. str_eq thread.tenant_id id)
        (find_row key (purge_threads (threads_of_tenant s id) s).threads)
      ≡ false
unfolding threads_of_tenant
erased-threads s id key =
    let tests : ThreadRow → Bool = λ thread. str_eq thread.tenant_id id in
    let listed = contains-ids_where tests key s.threads in
    let found =
      purge_threads-threads (threads_of_tenant s id) s key
      ∙ ap (λ b. if b then none else find_row key s.threads) listed in
    ap (holds_row tests) found ∙ dropped tests (find_row key s.threads)

erase_tenant-IsErased :
    (s : MemoryStore) (id : String)
    → IsErased id s
        (erase_tenant id (spaces_of_tenant s id) (purge_threads (threads_of_tenant s id) s))
unfolding spaces_of_tenant contains
erase_tenant-IsErased s id =
    let ids = threads_of_tenant s id in
    let purged = purge_threads ids s in
    record {
      tenant = ground (arith, find_row-remove_rows id (id ∷ []) purged.tenants, eq_iff id id);
      threads = no_row (λ thread. str_eq thread.tenant_id id) purged.threads (erased-threads s id);
      runs =
          no_row (λ run. contains ids run.thread_id) purged.runs
            λ key.
              ap (holds_row λ run. contains ids run.thread_id) (purge_threads-runs ids s key)
              ∙ outside-none ids (find_row key s.runs);
      spaces =
          ap
            (λ t.
              any_row (λ space. str_eq space.tenant_id id) (remove_rows (spaces_of_tenant s id) t))
            (purge_threads-spaces ids s)
          ∙ any_row-remove_rows (λ space. str_eq space.tenant_id id) s.spaces;
      users = any_row-remove_rows (λ user. str_eq user.tenant_id id) purged.users;
      auth_tokens = any_row-remove_rows (λ token. str_eq token.tenant_id id) purged.auth_tokens;
      push_subscriptions =
          any_row-remove_rows (λ subscription. str_eq subscription.tenant_id id)
            purged.push_subscriptions;
    }

delete_tenant-OnOk :
    (s : MemoryStore) (id : String) (tenant : TenantRow)
    → find_row id s.tenants ≡ some tenant
    → OnOk (λ done. IsErased id s done.0) (delete_tenant s id)
unfolding delete_tenant
delete_tenant-OnOk s id tenant found = rw found (
    OnOk-bind _ (require_that (not tenant.is_bootstrap) _) _ λ _ _.
      OnOk-bind _ (require_that (not (any_active_run s (threads_of_tenant s id))) _) _ λ _ _.
        OnOk-bind _ (require_that (not (has_active_shell_command s (threads_of_tenant s id))) _) _
          λ _ _. erase_tenant-IsErased s id)

-- When the deletion of a tenant that exists returns, nothing of it is left: not the tenant, nor a thread,
-- space, user, token or push subscription of it, nor a run of one of the threads that it had.
pub delete_tenant-IsErased :
    (s s' : MemoryStore) (id : String) (tenant : TenantRow) (deleted : Bool)
    → find_row id s.tenants ≡ some tenant
    → delete_tenant s id ≡ ok (s', deleted)
    → IsErased id s s'
delete_tenant-IsErased s s' id tenant deleted found returned =
    OnOk-value (λ done. IsErased id s done.0) (delete_tenant-OnOk s id tenant found) returned
