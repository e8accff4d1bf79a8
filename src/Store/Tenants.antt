-- ===== src/Store/Tenants.antt =====
-- server/src/store/memoryStore.ts, class MemoryStore: tenants and spaces.
-- New ids and the time are given to an operation; the configuration of a default space is a parameter.
pub mod Migration
pub mod Erasure
use run_forge.Base.{
  ℕ, ◌+◌, ◌-◌, ◌/◌, ◌%◌, String, str_eq, Bool, true, false, not, ◌&&◌, ◌||◌, Option, none, some,
  List, [], ◌∷◌, ◌==◌, ltb, if◌then◌else◌, on_some, filter, contains, truthy, is_some, Table,
  find_row, set_row, remove_rows, map_rows, ids_where, any_row, rows, Result, ok, err, require_that,
  ◌>>=◌, ◌>>◌, Fields, Text,
}
use Prim.Native.Char.{code}
use run_forge.Spaces.Input.{SpaceMode, web}
use run_forge.Spaces.Rows.{
  TenantRow, TenantStatus, UserRow, UserStatus, TenantUserRole, SpaceRow, CreateSpaceRecordInput,
  UpdateSpaceRecordInput,
}
use run_forge.Spaces.Access.{opt_eq, is_web}
use run_forge.Store.Rows.{
  StoreError, failed, delete_conflict, ThreadRow, SubagentRunRow, is_terminal_run_status,
}
use run_forge.Store.Shells.{ShellSessionRow}
use run_forge.Store.State.{
  MemoryStore, StoredSpace, AuthTokenRow, PushSubscriptionRow, visible_users,
}
use run_forge.Store.Runs.{R, or_value}
use run_forge.Store.Threads.{has_active_shell_command, purge_thread}

pub record CreateTenantWithOwnerInput : Type 0 where
  pub id : String
  pub name : String
  pub owner_email : String
  pub owner_password_hash : String
  pub is_bootstrap : Option Bool
  pub default_space_config : Option Fields

module _ (default_memory_space_config : Fields) where
  abbrev new_owner : (owner_id now : String) → CreateTenantWithOwnerInput → UserRow
  new_owner owner_id now input = record {
    id = owner_id;
    tenant_id = input.id;
    email = input.owner_email;
    password_hash = input.owner_password_hash;
    role = TenantUserRole.owner;
    status = UserStatus.active;
    is_bootstrap = or_value input.is_bootstrap false;
    created_at = now;
  }

  abbrev first_space : (space_id owner_id now : String) → CreateTenantWithOwnerInput → StoredSpace
  first_space space_id owner_id now input = record {
    id = space_id;
    tenant_id = input.id;
    mode = web;
    name = "Default";
    execution_user_id = none;
    config = or_value input.default_space_config default_memory_space_config;
    config_version = 1;
    created_by_user_id = some owner_id;
    created_at = now;
    updated_at = now;
  }

  abbrev new_tenant : (space_id now : String) → CreateTenantWithOwnerInput → TenantRow
  new_tenant space_id now input = record {
    id = input.id;
    name = input.name;
    status = TenantStatus.active;
    is_bootstrap = or_value input.is_bootstrap false;
    default_space_id = some space_id;
    created_at = now;
  }

  unfoldable create_tenant_with_owner :
      MemoryStore
      → (owner_id space_id now : String) → CreateTenantWithOwnerInput
      → R (MemoryStore × TenantRow × UserRow × StoredSpace)
  create_tenant_with_owner s owner_id space_id now input =
      if is_some (find_row input.id s.tenants)
      then err (failed "tenant exists")
      else let tenant = new_tenant space_id now input in
        let owner = new_owner owner_id now input in
        let space = first_space space_id owner_id now input in
        ok (
          record s {
            tenants = set_row input.id tenant s.tenants;
            users = set_row owner_id owner s.users;
            spaces = set_row space_id space s.spaces;
            space_visible_users = set_row space_id [] s.space_visible_users;
          },
          tenant,
          owner,
          space,
        )

abbrev first_of : List TenantRow → Option TenantRow
first_of [] = none
first_of (tenant ∷ tenants) = some tenant

abbrev at_most_one : List TenantRow → Bool
at_most_one [] = true
at_most_one (tenant ∷ []) = true
at_most_one (tenant ∷ other ∷ tenants) = false

unfoldable find_bootstrap_tenant : MemoryStore → R (Option TenantRow)
find_bootstrap_tenant s =
    let marked = filter (λ tenant. tenant.is_bootstrap) (rows s.tenants) in
    if at_most_one marked then ok (first_of marked) else err (failed "bootstrap tenants")

unfoldable update_tenant_status :
    MemoryStore → String → TenantStatus → MemoryStore × Option TenantRow
update_tenant_status s id status =
    on_some (find_row id s.tenants) (s, none)
      λ tenant.
        let next = record tenant { status = status } in
        (record s { tenants = set_row id next s.tenants }, some next)

-- A run of one of the threads is not finished.
unfoldable pub any_active_run : MemoryStore → List String → Bool
any_active_run s thread_ids =
    any_row (λ run. contains thread_ids run.thread_id && not (is_terminal_run_status run.status))
      s.runs

unfoldable pub purge_threads : List String → MemoryStore → MemoryStore
unfolding purge_thread
purge_threads [] s = s
purge_threads (id ∷ ids) s = purge_threads ids (purge_thread id s)

unfoldable pub threads_of_tenant : MemoryStore → String → List String
threads_of_tenant s id = ids_where (λ thread. str_eq thread.tenant_id id) s.threads

unfoldable pub spaces_of_tenant : MemoryStore → String → List String
spaces_of_tenant s id = ids_where (λ space. str_eq space.tenant_id id) s.spaces

abbrev pub erase_tenant : String → List String → MemoryStore → MemoryStore
erase_tenant id space_ids s = record s {
  spaces = remove_rows space_ids s.spaces;
  space_visible_users = remove_rows space_ids s.space_visible_users;
  users = remove_rows (ids_where (λ user. str_eq user.tenant_id id) s.users) s.users;
  auth_tokens =
      remove_rows (ids_where (λ token. str_eq token.tenant_id id) s.auth_tokens) s.auth_tokens;
  push_subscriptions =
      remove_rows
        (ids_where (λ subscription. str_eq subscription.tenant_id id) s.push_subscriptions)
        s.push_subscriptions;
  tenants = remove_rows (id ∷ []) s.tenants;
}

-- `deleteTenant`: whether a tenant is deleted.
unfoldable pub delete_tenant : MemoryStore → String → R (MemoryStore × Bool)
unfolding any_active_run has_active_shell_command purge_threads threads_of_tenant spaces_of_tenant
delete_tenant s id = on_some (find_row id s.tenants) (ok (s, false)) λ tenant. do
  let thread_ids = threads_of_tenant s id
  require_that (not tenant.is_bootstrap) (delete_conflict "DEFAULT_TENANT_PROTECTED")
  require_that (not (any_active_run s thread_ids)) (delete_conflict "TENANT_HAS_ACTIVE_RUNS")
  require_that (not (has_active_shell_command s thread_ids))
      (delete_conflict "TENANT_HAS_ACTIVE_SHELLS")
  ok (erase_tenant id (spaces_of_tenant s id) (purge_threads thread_ids s), true)
