-- ===== src/Store/Tenants/Migration.antt =====
-- server/src/store/memoryStore.ts, class MemoryStore, `migrateBootstrapTenantId`.
use run_forge.Base.{
  String, str_eq, true, [], ◌∷◌, if◌then◌else◌, on_some, is_some, find_row, set_row, remove_rows,
  map_rows, ok, err,
}
use run_forge.Spaces.Rows.{TenantRow, UserRow}
use run_forge.Store.Rows.{failed, ThreadRow, SubagentRunRow}
use run_forge.Store.Shells.{ShellSessionRow}
use run_forge.Store.State.{MemoryStore, StoredSpace, AuthTokenRow, PushSubscriptionRow}
use run_forge.Store.Runs.{R}

abbrev moved : (current_id next_id tenant_id : String) → String
moved current_id next_id tenant_id = if str_eq tenant_id current_id then next_id else tenant_id

abbrev moved_user : (current_id next_id : String) → UserRow → UserRow
moved_user current_id next_id row = record row {
  tenant_id = moved current_id next_id row.tenant_id;
}

abbrev moved_space : (current_id next_id : String) → StoredSpace → StoredSpace
moved_space current_id next_id row = record row {
  tenant_id = moved current_id next_id row.tenant_id;
}

abbrev moved_thread : (current_id next_id : String) → ThreadRow → ThreadRow
moved_thread current_id next_id row = record row {
  tenant_id = moved current_id next_id row.tenant_id;
}

abbrev moved_session : (current_id next_id : String) → ShellSessionRow → ShellSessionRow
moved_session current_id next_id row = record row {
  tenant_id = moved current_id next_id row.tenant_id;
}

abbrev moved_subagent : (current_id next_id : String) → SubagentRunRow → SubagentRunRow
moved_subagent current_id next_id row = record row {
  tenant_id = moved current_id next_id row.tenant_id;
}

abbrev moved_subscription :
    (current_id next_id : String) → PushSubscriptionRow → PushSubscriptionRow
moved_subscription current_id next_id row = record row {
  tenant_id = moved current_id next_id row.tenant_id;
}

abbrev moved_token : (current_id next_id : String) → AuthTokenRow → AuthTokenRow
moved_token current_id next_id row = record row {
  tenant_id = moved current_id next_id row.tenant_id;
}

unfoldable migrate_bootstrap_tenant_id :
    MemoryStore → (current_id next_id : String) → R (MemoryStore × TenantRow)
migrate_bootstrap_tenant_id s current_id next_id =
    on_some (find_row current_id s.tenants) (err (failed "tenant")) λ tenant.
      if is_some (find_row next_id s.tenants)
      then err (failed "tenant exists")
      else let next = record tenant { id = next_id; is_bootstrap = true } in
        ok (
          record s {
            tenants = set_row next_id next (remove_rows (current_id ∷ []) s.tenants);
            users = map_rows (moved_user current_id next_id) s.users;
            spaces = map_rows (moved_space current_id next_id) s.spaces;
            threads = map_rows (moved_thread current_id next_id) s.threads;
            shell_sessions = map_rows (moved_session current_id next_id) s.shell_sessions;
            subagent_runs = map_rows (moved_subagent current_id next_id) s.subagent_runs;
            push_subscriptions =
                map_rows (moved_subscription current_id next_id) s.push_subscriptions;
            auth_tokens = map_rows (moved_token current_id next_id) s.auth_tokens;
          },
          next,
        )
