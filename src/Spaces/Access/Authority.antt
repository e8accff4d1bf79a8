-- ===== src/Spaces/Access/Authority.antt =====
-- Who may change spaces, and what a change may write.
use run_forge.Base.{
  String, eq_iff, ◌≡◌, refl, ◌⊎◌, inl, inr, true, Option, none, some, List, [], ◌∷◌, arith,
  Bool-cases, Option-cases, contains, ok, Result-cases, OnOk-bind, OnOk-value, All,
}
use run_forge.Deletion.Gate.{DeletionGate}
use run_forge.Spaces.Input.{
  SpaceMode, web, external, CreateSpaceInput, UpdateSpaceInput, unique, unique_from,
}
use run_forge.Spaces.Rows.{UserStatus, UserRow, TenantRow, CreateSpaceRecordInput, Services}
use run_forge.Spaces.Access.{
  SpaceActorContext, tenant_actor, system_actor, ResolvedTenantActor, ManagerActor, SpaceSummary,
  is_manager, resolve_tenant_actor, require_manager, resolve_manager_actor, find_user, is_member,
  check_members, validate_visible_users, validate_execution_user,
}
use run_forge.Spaces.Access.Changes.{as_bad_request, prepare_create, create, update, delete}
use run_forge.Spaces.Access.Visibility.{IsActor, resolve_tenant_actor-IsActor}

module _ (services : Services) where
  open services use {
    State, find_user_by_id, find_tenant, list_spaces, list_users_by_tenant, snapshot_for_create,
  }

  -- A system administrator acts on a tenant that exists; a user acts on the own tenant, is stored as
  -- active in it, and is stored as its owner or an administrator, whatever role the token carries.
  abbrev pub IsAuthorized : State → SpaceActorContext → Type 0
  IsAuthorized s (system_actor tenant_id) =
      (tenant : TenantRow) × (find_tenant s tenant_id ≡ some tenant)
  IsAuthorized s (tenant_actor tenant_id user_id role) =
      (actor : ResolvedTenantActor) × IsActor services s tenant_id user_id actor
      × (is_manager actor.role ≡ true)

  resolve_manager_actor-IsAuthorized :
      (s : State) (context : SpaceActorContext) {manager : ManagerActor}
      → resolve_manager_actor services s context ≡ ok manager
      → IsAuthorized s context
  unfolding resolve_manager_actor require_manager
  resolve_manager_actor-IsAuthorized s (system_actor tenant_id) e =
      elim (Option-cases (find_tenant s tenant_id)) [
        | inl missing ↦ cc (rw missing at e)
        | inr (tenant, known) ↦ (tenant, known)
      ]
  resolve_manager_actor-IsAuthorized s (tenant_actor tenant_id user_id role) e =
      elim (Result-cases (resolve_tenant_actor services s tenant_id user_id)) [
        | inl (x, refused) ↦ cc (rw refused at e)
        | inr (actor, resolved) ↦ (
          actor,
          resolve_tenant_actor-IsActor services s tenant_id user_id resolved,
          ground arith,
        )
      ]

  -- If a creation, an update or a deletion of a space succeeds, the actor is authorized: it is the
  -- system acting on a tenant that exists, or a user who is stored as active in the token's tenant and
  -- as its owner or an administrator.
  pub changes-IsAuthorized :
      (s : State) (gate : DeletionGate) (context : SpaceActorContext) (space_id : String)
      (new : CreateSpaceInput) (change : UpdateSpaceInput) (replacement : Option String)
      (summary : SpaceSummary)
      → ((create services s context new).1 ≡ ok summary)
        ⊎ ((update services s context space_id change).1 ≡ ok summary)
        ⊎ ((delete services s gate context space_id replacement).2 ≡ ok tt)
      → IsAuthorized s context
  unfolding create update delete
  changes-IsAuthorized s gate context space_id new change replacement summary e =
      elim (Result-cases (resolve_manager_actor services s context)) [
        | inl (x, refused) ↦ elim e [
          | inl created ↦ cc (rw (refused, create) at created)
          | inr (inl updated) ↦ cc (rw (refused, update) at updated)
          | inr (inr deleted) ↦ cc (rw (refused, delete) at deleted)
        ]
        | inr (manager, resolved) ↦ resolve_manager_actor-IsAuthorized s context resolved
      ]

  abbrev pub IsMemberOf : State → String → String → Type 0
  IsMemberOf s tenant_id id = is_member (find_user id (list_users_by_tenant s tenant_id)) ≡ true

  check_members-All :
      (users : List UserRow) (ids : List String) {u : Unit {0}}
      → check_members users ids ≡ ok u
      → All (λ id. is_member (find_user id users) ≡ true) ids
  unfolding check_members
  check_members-All users [] e = tt
  check_members-All users (id ∷ ids) e = elim (Bool-cases (is_member (find_user id users))) [
    | inl fits ↦ (fits, check_members-All users ids (rw (fits, check_members) at e))
    | inr stranger ↦ cc (rw (stranger, check_members) at e)
  ]

  unique_from-All :
      (P : String → Type 0) (seen ids : List String) → All P ids → All P (unique_from seen ids)
  unfolding unique_from
  unique_from-All P seen [] h = tt
  unique_from-All P seen (id ∷ ids) (h, hs) = elim (Bool-cases (contains seen id)) [
    | inl old ↦ rw old (unique_from-All P seen ids hs)
    | inr new ↦ rw new (h, unique_from-All P (id ∷ seen) ids hs)
  ]

  validate_visible_users-All :
      (s : State) (tenant_id : String) (ids : List String) {valid : List String}
      → validate_visible_users services s tenant_id ids ≡ ok valid
      → All (IsMemberOf s tenant_id) valid
  unfolding validate_visible_users unique
  validate_visible_users-All s tenant_id [] = OnOk-value (All (IsMemberOf s tenant_id)) tt
  validate_visible_users-All s tenant_id (id ∷ ids) =
      let P = All (IsMemberOf s tenant_id) in
      let users = list_users_by_tenant s tenant_id in
      OnOk-value P (
        OnOk-bind P (check_members users (id ∷ ids)) _ λ _ fit.
          unique_from-All (IsMemberOf s tenant_id) [] (id ∷ ids)
            (check_members-All users (id ∷ ids) fit))

  -- The user under whom an external space runs is an active user of the tenant.
  abbrev pub IsExecutionUser : State → String → SpaceMode → Option String → Type 0
  IsExecutionUser s tenant_id web id = id ≡ none
  IsExecutionUser s tenant_id external id =
      (user : UserRow) × (asked : String) × (find_user_by_id s asked ≡ some user)
      × (id ≡ some user.id)
      × (user.tenant_id ≡ tenant_id)
      × (user.status ≡ UserStatus.active)

  validate_execution_user-valid :
      (s : State) (tenant_id : String) (mode : SpaceMode) (requested : Option String)
      {id : Option String}
      → validate_execution_user services s tenant_id mode requested ≡ ok id
      → IsExecutionUser s tenant_id mode id
  unfolding validate_execution_user
  validate_execution_user-valid s tenant_id web none e = ground arith
  validate_execution_user-valid s tenant_id web (some _) e = cc
  validate_execution_user-valid s tenant_id external none e = cc
  validate_execution_user-valid s tenant_id external (some asked) e =
      elim (Option-cases (find_user_by_id s asked)) [
        | inl missing ↦ ground arith
        | inr (user, found) ↦ (
          user,
          asked,
          found,
          ground arith,
          ground (arith, eq_iff user.tenant_id tenant_id),
          ground arith,
        )
      ]

  -- What a row that is to be created has.
  pub record IsFit (s : State) (tenant_id : String) (asked : CreateSpaceInput)
      (row : CreateSpaceRecordInput) : Type 0 where
    pub same_tenant : row.tenant_id ≡ tenant_id
    pub same_mode : row.mode ≡ asked.mode
    pub same_name : row.name ≡ asked.name
    pub has_user : IsExecutionUser s tenant_id asked.mode row.execution_user_id
    pub are_members : All (IsMemberOf s tenant_id) row.visible_user_ids

  -- A space that passes the checks of a creation is stored with the mode and the name asked for, with
  -- an execution user that fits its mode, and with a list of users each of whom is a member of the tenant.
  pub prepare_create-IsFit :
      (s : State) (tenant_id : String) (created_by : Option String) (asked : CreateSpaceInput)
      {row : CreateSpaceRecordInput}
      → prepare_create services s tenant_id created_by asked ≡ ok row
      → IsFit s tenant_id asked row
  unfolding prepare_create
  prepare_create-IsFit s tenant_id created_by asked =
      let P = IsFit s tenant_id asked in
      OnOk-value P (
        OnOk-bind P
          (validate_execution_user services s tenant_id asked.mode asked.execution_user_id) _
          λ user user_ok.
            OnOk-bind P (validate_visible_users services s tenant_id asked.visible_user_ids) _
              λ ids ids_ok.
                OnOk-bind P
                  (as_bad_request (snapshot_for_create s tenant_id asked.mode asked.config)) _
                  λ config _. record {
                    same_tenant = refl;
                    same_mode = refl;
                    same_name = refl;
                    has_user =
                        validate_execution_user-valid s tenant_id asked.mode asked.execution_user_id
                          user_ok;
                    are_members =
                        validate_visible_users-All s tenant_id asked.visible_user_ids ids_ok;
                  })
