-- ===== src/Spaces/Access/Ending.antt =====
-- The end of a space: the gate that a deletion leaves, and the default space of a tenant.
use run_forge.Base.{
  ℕ, String, eq_iff, ◌≡◌, refl, ◌≢◌, ◌⊎◌, inl, inr, true, false, ◌&&◌, Option, none, some, List, [],
  ◌∷◌, arith, ◌==◌, Bool-cases, Option-cases, ok, err, Result-cases, All,
}
use text.Mathlib.TextPositions.{eq_refl}
use run_forge.Deletion.Gate.{
  ActiveDeletion, DeletionGate, is_blocked, begin, unlist, finish_deletion,
}
use run_forge.Spaces.Input.{SpaceAccessError, web}
use run_forge.Spaces.Rows.{TenantRow, SpaceRow, Services}
use run_forge.Spaces.Access.{require_tenant}
use run_forge.Spaces.Access.Changes.{
  find_by_id, check_replacement, check_delete, space_scope, delete_listed, delete_registered,
  delete_managed, access, conflict,
}

abbrev pub IsReleased : ℕ → List ActiveDeletion → Type 0
IsReleased key ds = All (λ d. (d.key == key && d.listed) ≡ false) ds

unlist-IsReleased : (key : ℕ) (ds : List ActiveDeletion) → IsReleased key (unlist key ds)
unfolding unlist
unlist-IsReleased key [] = tt
unlist-IsReleased key (d ∷ ds) = (ground arith, unlist-IsReleased key ds)

module _ (services : Services) where
  open services use {State, find_tenant, list_spaces}

  delete_registered-IsReleased :
      (s : State) (key : ℕ) (gate : DeletionGate) (tenant_id space_id : String)
      (replacement : Option String)
      → IsReleased key
          (delete_registered services s key gate tenant_id space_id replacement).1.active
  unfolding delete_registered finish_deletion
  delete_registered-IsReleased s key gate tenant_id space_id replacement =
      unlist-IsReleased key
        (delete_listed services s key gate tenant_id space_id replacement).1.active

  -- The deletion of a space that the checks refuse throws their error, one that the gate refuses
  -- throws the gate's, and both leave the store and the gate as they were; one that the gate admits has
  -- ended its own registration at the gate when it returns or throws, whichever of its calls threw and
  -- whatever other code did to the store and the gate during them.
  pub delete_managed-releases :
      (s : State) (gate : DeletionGate) (tenant_id space_id : String) (replacement : Option String)
      → let checked = check_delete services s tenant_id space_id replacement in
        let blocked = is_blocked gate (space_scope tenant_id space_id) in
        let after = delete_managed services s gate tenant_id space_id replacement in
        ((e : SpaceAccessError) × (checked ≡ err e) × (after ≡ (s, gate, err (access e))))
        ⊎ ((checked ≡ ok tt)
            × (blocked ≡ true)
            × (after ≡ (s, gate, err (conflict "RESOURCE_DELETION_IN_PROGRESS"))))
        ⊎ ((checked ≡ ok tt) × (blocked ≡ false) × IsReleased gate.next_key after.1.active)
  unfolding delete_managed begin
  delete_managed-releases s gate tenant_id space_id replacement =
      elim (Result-cases (check_delete services s tenant_id space_id replacement)) [
        | inl (e, refused) ↦ inl (e, refused, rw (refused, delete_managed) refl)
        | inr (_, allowed) ↦ elim (Bool-cases (is_blocked gate (space_scope tenant_id space_id))) [
          | inl blocked ↦ inr (inl (allowed, blocked, rw (allowed, blocked, delete_managed) refl))
          | inr free ↦ inr (
              inr (
                allowed,
                free,
                rw (allowed, free, delete_managed)
                    (delete_registered-IsReleased s gate.next_key _ tenant_id space_id replacement),
              ))
        ]
      ]

  refused_none :
      (s : State) (tenant_id space_id : String) (tenant : TenantRow)
      → find_tenant s tenant_id ≡ some tenant
      → tenant.default_space_id ≡ some space_id
      → check_delete services s tenant_id space_id none ≢ ok tt
  unfolding check_delete require_tenant check_replacement
  refused_none s tenant_id space_id tenant known default e = ground (arith, eq_refl space_id)

  refused_missing :
      (s : State) (tenant_id space_id id : String) (tenant : TenantRow)
      → find_tenant s tenant_id ≡ some tenant
      → tenant.default_space_id ≡ some space_id
      → find_by_id (some id) (list_spaces s tenant_id) ≡ none
      → check_delete services s tenant_id space_id (some id) ≢ ok tt
  unfolding check_delete require_tenant check_replacement
  refused_missing s tenant_id space_id id tenant known default missing e =
      ground (arith, eq_refl space_id)

  -- The default space of a tenant is only deleted with a replacement: another space of the tenant,
  -- and a web space.
  pub check_delete-default :
      (s : State) (tenant_id space_id : String) (replacement : Option String) (tenant : TenantRow)
      → find_tenant s tenant_id ≡ some tenant
      → tenant.default_space_id ≡ some space_id
      → check_delete services s tenant_id space_id replacement ≡ ok tt
      → (id : String) × (space : SpaceRow) × (replacement ≡ some id)
        × (id ≢ space_id)
        × (find_by_id (some id) (list_spaces s tenant_id) ≡ some space)
        × (space.mode ≡ web)
  unfolding check_delete require_tenant check_replacement
  check_delete-default s tenant_id space_id none tenant known default e =
      elim (refused_none s tenant_id space_id tenant known default e) [ ]
  check_delete-default s tenant_id space_id (some id) tenant known default e =
      elim (Option-cases (find_by_id (some id) (list_spaces s tenant_id))) [
        | inl missing ↦
            elim (refused_missing s tenant_id space_id id tenant known default missing e) [ ]
        | inr (space, found) ↦ (
          id,
          space,
          refl,
          ground (arith, eq_refl space_id, eq_iff id space_id),
          found,
          ground (arith, eq_refl space_id),
        )
      ]
