-- ===== src/Store/Spaces.antt =====
-- server/src/store/memoryStore.ts, class MemoryStore: spaces.
use run_forge.Base.{
  ◌+◌, String, str_eq, Bool, true, false, not, ◌&&◌, Option, none, some, List, [], ◌∷◌,
  if◌then◌else◌, on_some, truthy, is_some, find_row, set_row, remove_rows, ids_where, ok, err,
  require_that, ◌>>=◌, ◌>>◌,
}
use run_forge.Spaces.Rows.{
  TenantRow, UserRow, SpaceRow, CreateSpaceRecordInput, UpdateSpaceRecordInput,
}
use run_forge.Spaces.Access.{opt_eq, is_web}
use run_forge.Store.Rows.{failed, delete_conflict}
use run_forge.Store.State.{MemoryStore, StoredSpace}
use run_forge.Store.Runs.{R, or_value}
use run_forge.Store.Threads.{has_active_shell_command}
use run_forge.Store.SpaceRows.{distinct, space_with_visibility}
use run_forge.Store.Tenants.{any_active_run, purge_threads}

abbrev default_of : Option TenantRow → Option String
default_of none = none
default_of (some tenant) = tenant.default_space_id

unfoldable get_default_space : MemoryStore → String → Option StoredSpace
get_default_space s tenant_id =
    let id = default_of (find_row tenant_id s.tenants) in
    if truthy id then find_row (or_value id "") s.spaces else none

unfoldable pub find_space : MemoryStore → (tenant_id id : String) → Option SpaceRow
unfolding space_with_visibility
find_space s tenant_id id =
    on_some (find_row id s.spaces) none λ space.
      if str_eq space.tenant_id tenant_id then some (space_with_visibility s space) else none

abbrev is_of_tenant : String → Option UserRow → Bool
is_of_tenant tenant_id none = false
is_of_tenant tenant_id (some user) = str_eq user.tenant_id tenant_id

abbrev new_space : (id now : String) → CreateSpaceRecordInput → StoredSpace
new_space id now input = record {
  id = id;
  tenant_id = input.tenant_id;
  mode = input.mode;
  name = input.name;
  execution_user_id = input.execution_user_id;
  config = input.config;
  config_version = 1;
  created_by_user_id = input.created_by_user_id;
  created_at = now;
  updated_at = now;
}

unfoldable pub create_space :
    MemoryStore → (id now : String) → CreateSpaceRecordInput → R (MemoryStore × SpaceRow)
unfolding space_with_visibility distinct
create_space s id now input =
    if not (is_some (find_row input.tenant_id s.tenants))
    then err (failed "tenant")
    else if truthy input.created_by_user_id
        && not
            (is_of_tenant input.tenant_id (find_row (or_value input.created_by_user_id "") s.users))
    then err (failed "createdByUserId")
    else let space = new_space id now input in
      let s' : MemoryStore = record s {
        spaces = set_row id space s.spaces;
        space_visible_users = set_row id (distinct input.visible_user_ids) s.space_visible_users;
      } in
      ok (s', space_with_visibility s' space)

abbrev assign_space : UpdateSpaceRecordInput → String → StoredSpace → StoredSpace
assign_space fields now space = record space {
  name = or_value fields.name space.name;
  execution_user_id = or_value fields.execution_user_id space.execution_user_id;
  config = or_value fields.config space.config;
  config_version = if is_some fields.config then space.config_version + 1 else space.config_version;
  updated_at = now;
}

unfoldable pub update_space :
    MemoryStore
    → (tenant_id id now : String) → UpdateSpaceRecordInput
    → MemoryStore × Option SpaceRow
unfolding space_with_visibility distinct
update_space s tenant_id id now fields =
    on_some (find_row id s.spaces) (s, none)
      λ space.
        if not (str_eq space.tenant_id tenant_id)
        then (s, none)
        else let next = assign_space fields now space in
          let s' : MemoryStore = record s {
            spaces = set_row id next s.spaces;
            space_visible_users =
                on_some fields.visible_user_ids s.space_visible_users
                  λ ids. set_row id (distinct ids) s.space_visible_users;
          } in
          (s', some (space_with_visibility s' next))

unfoldable threads_of_space : MemoryStore → String → List String
threads_of_space s id = ids_where (λ thread. str_eq thread.space_id id) s.threads

-- The new default space is one of the tenant's for the web.
abbrev takes_over : String → Option StoredSpace → Bool
takes_over tenant_id none = false
takes_over tenant_id (some space) = str_eq space.tenant_id tenant_id && is_web space.mode

abbrev is_default : String → Option TenantRow → Bool
is_default id none = false
is_default id (some tenant) = opt_eq tenant.default_space_id id

-- The default space of the tenant is replaced, where it is the one that goes.
unfoldable replace_default : MemoryStore → (tenant_id id : String) → Option String → R MemoryStore
replace_default s tenant_id id replacement = on_some (find_row tenant_id s.tenants) (ok s) λ tenant.
    if not (opt_eq tenant.default_space_id id) then ok s else do
      require_that (truthy replacement && not (opt_eq replacement id))
          (delete_conflict "DEFAULT_SPACE_REPLACEMENT_REQUIRED")
      require_that (takes_over tenant_id (find_row (or_value replacement "") s.spaces))
          (delete_conflict "DEFAULT_SPACE_REPLACEMENT_INVALID")
      ok (record s {
        tenants = set_row tenant_id (record tenant { default_space_id = replacement }) s.tenants;
      })

abbrev erase_space : String → MemoryStore → MemoryStore
erase_space id s = record s {
  spaces = remove_rows (id ∷ []) s.spaces;
  space_visible_users = remove_rows (id ∷ []) s.space_visible_users;
}

-- `deleteSpace`: whether a space of the tenant is deleted.
unfoldable pub delete_space :
    MemoryStore → (tenant_id id : String) → Option String → R (MemoryStore × Bool)
unfolding any_active_run has_active_shell_command threads_of_space replace_default purge_threads
delete_space s tenant_id id replacement = on_some (find_row id s.spaces) (ok (s, false)) λ space.
    if not (str_eq space.tenant_id tenant_id) then ok (s, false) else do
      let thread_ids = threads_of_space s id
      require_that (not (any_active_run s thread_ids)) (delete_conflict "SPACE_HAS_ACTIVE_RUNS")
      require_that (not (has_active_shell_command s thread_ids))
          (delete_conflict "SPACE_HAS_ACTIVE_SHELLS")
      replaced ← replace_default s tenant_id id replacement
      ok (erase_space id (purge_threads thread_ids replaced), true)
