-- ===== src/Store/Tests/Accounts.antt =====
-- server/src/store/memoryStore.ts, class MemoryStore: a tenant with an owner, and the theorems at it.
use run_forge.Base.{
  eq_iff, true, false, none, some, [], ◌∷◌, ◌≡◌, refl, arith, find_row, any_row, keys, ids_where,
}
use run_forge.Spaces.Rows.{TenantRow, TenantStatus, UserRow, UserStatus, TenantUserRole}
use run_forge.Store.State.{MemoryStore, empty_store}
use run_forge.Store.Threads.{has_active_shell_command}
use run_forge.Store.Tenants.{
  any_active_run, delete_tenant, purge_threads, threads_of_tenant, spaces_of_tenant, erase_tenant,
}
use run_forge.Store.Tenants.Erasure.{IsErased, delete_tenant-IsErased}
use run_forge.Store.Users.{UserFields}
use run_forge.Store.Users.Keeping.{IsOwned, has_owner}
use run_forge.Store.Users.Owners.{update, apply_user, apply_user-IsOwned}
use run_forge.Store.Runs.Status.{cancel_runs_for_deletion}
use run_forge.Store.Shells.Commands.{cancel_shell_commands_for_deletion}
use run_forge.Store.Cancelling.{cancel_for_deletion-quiet}
use run_forge.Store.Tests.{one_command}

abbrev ann : UserRow
ann = record {
  id = "user_1";
  tenant_id = "tenant_2";
  email = "ann@example.org";
  password_hash = "h";
  role = TenantUserRole.owner;
  status = UserStatus.active;
  is_bootstrap = false;
  created_at = "t0";
}

abbrev tenant_2 : TenantRow
tenant_2 = record {
  id = "tenant_2";
  name = "Two";
  status = TenantStatus.active;
  is_bootstrap = false;
  default_space_id = none;
  created_at = "t0";
}

abbrev one_owner : MemoryStore
one_owner = record empty_store {
  tenants = ("tenant_2", tenant_2) ∷ [];
  users = ("user_1", ann) ∷ [];
}

one_owner-IsOwned : IsOwned "tenant_2" one_owner
unfolding find_row has_owner any_row
one_owner-IsOwned = record { keyed = λ id. ground (arith, eq_iff "user_1" id); owned = refl }

abbrev to_member : UserFields
to_member = record {
  email = none;
  password_hash = none;
  role = some TenantUserRole.member;
  status = none;
}

-- The only owner does not become a member.
apply_user-IsOwned_example : IsOwned "tenant_2" (apply_user (update "user_1" to_member) one_owner)
apply_user-IsOwned_example =
    apply_user-IsOwned "tenant_2" (update "user_1" to_member) one_owner one_owner-IsOwned refl

delete_tenant-IsErased_example :
    IsErased "tenant_2" one_owner (erase_tenant "tenant_2" [] one_owner)
unfolding delete_tenant find_row any_row any_active_run has_active_shell_command purge_threads
    threads_of_tenant spaces_of_tenant ids_where keys
delete_tenant-IsErased_example =
    delete_tenant-IsErased one_owner (erase_tenant "tenant_2" [] one_owner) "tenant_2" tenant_2 true
      refl refl

cancel_for_deletion-quiet_example :
    (any_active_run
        (cancel_shell_commands_for_deletion
          (cancel_runs_for_deletion one_command ("thread_1" ∷ []) "t5")
          ("thread_1" ∷ [])
          "t5")
        ("thread_1" ∷ [])
      ≡ false)
    × (has_active_shell_command
          (cancel_shell_commands_for_deletion
            (cancel_runs_for_deletion one_command ("thread_1" ∷ []) "t5")
            ("thread_1" ∷ [])
            "t5")
          ("thread_1" ∷ [])
        ≡ false)
cancel_for_deletion-quiet_example = cancel_for_deletion-quiet ("thread_1" ∷ []) "t5" one_command
