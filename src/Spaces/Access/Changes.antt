-- ===== src/Spaces/Access/Changes.antt =====
-- server/src/spaces/access.ts, class SpaceAccessService: creating, updating and deleting a space.
-- A change returns the state that it leaves, beside its result or the error that it throws. The
-- queue of `mutateTenant`, which runs one change of a tenant at a time, is not modelled.
use run_forge.Base.{
  ℕ, String, str_eq, Bool, true, false, not, ◌||◌, Option, none, some, List, [], ◌∷◌, if◌then◌else◌,
  Result, ok, err, ◌>>=◌, require_some, Fields,
}
use run_forge.Deletion.Gate.{DeletionScope, DeletionGate, begin, add_threads, finish_deletion}
use run_forge.Spaces.Input.{
  SpaceAccessError, web, external, R, fail, CreateSpaceInput, UpdateSpaceInput,
}
use run_forge.Spaces.Merge.{merge_space_config}
use run_forge.Spaces.Rows.{
  TenantRow, SpaceRow, CreateSpaceRecordInput, UpdateSpaceRecordInput, Thrown, delete_conflict,
  access_error, other_error, Awaited, Services,
}
use run_forge.Spaces.Access.{
  SpaceActorContext, SpaceSummary, error, opt_eq, is_web, require_tenant, require_space,
  resolve_manager_actor, to_summary, validate_execution_user, validate_visible_users,
}

-- A SpaceConfigError is thrown again as a bad request.
abbrev pub as_bad_request : {A : Type 0} → Result String A → R A
as_bad_request (ok a) = ok a
as_bad_request (err code) = fail 400 code

-- `spaces.find((space) => space.id === id)`
unfoldable pub find_by_id : Option String → List SpaceRow → Option SpaceRow
find_by_id id [] = none
find_by_id id (x ∷ xs) = if opt_eq id x.id then some x else find_by_id id xs

abbrev is_web_row : Option SpaceRow → Bool
is_web_row none = false
is_web_row (some space) = is_web space.mode

-- `!id || id === spaceId`
abbrev is_unusable : Option String → String → Bool
is_unusable none space_id = true
is_unusable (some id) space_id = str_eq id "" || str_eq id space_id

-- Only the deletion of the default space needs a replacement, a web space of the tenant.
unfoldable pub check_replacement : Bool → String → Option String → List SpaceRow → R (Unit {0})
unfolding find_by_id
check_replacement is_default space_id replacement spaces =
    if not is_default
    then ok tt
    else if is_unusable replacement space_id
    then fail 409 "DEFAULT_SPACE_REPLACEMENT_REQUIRED"
    else if is_web_row (find_by_id replacement spaces)
    then ok tt
    else fail 409 "DEFAULT_SPACE_REPLACEMENT_INVALID"

-- A conflict of the gate is thrown before the `try`, and is not turned into a SpaceAccessError.
pub data DeleteError : Type 0 where
  access : SpaceAccessError → DeleteError
  conflict : String → DeleteError
  thrown : String → DeleteError

-- The `catch`: a DeleteConflictError becomes a SpaceAccessError, any other error is thrown again.
abbrev pub caught : Result Thrown (Unit {0}) → Result DeleteError (Unit {0})
caught (ok _) = ok tt
caught (err (delete_conflict code)) = err (access (error 409 code))
caught (err (access_error e)) = err (access e)
caught (err (other_error message)) = err (thrown message)

-- The statements after an awaited call run only if it does not throw.
abbrev pub and_await :
    {S A B : Type 0} → Awaited S A → (S → DeletionGate → A → Awaited S B) → Awaited S B
and_await (s, gate, ok a) next = next s gate a
and_await (s, gate, err e) next = (s, gate, err e)

abbrev pub space_scope : String → String → DeletionScope
space_scope tenant_id space_id = record {
  tenant_id = tenant_id;
  space_id = some space_id;
  thread_id = none;
}

module _ (services : Services) where
  open services use {
    State, find_tenant, list_spaces, list_threads_for_deletion, create_space, update_space,
    wait_for_operations, stop_threads, delete_space, remove_space_workspace,
    remove_external_artifacts, normalize_for_save, snapshot_for_create,
  }

  unfoldable pub prepare_create :
      State → String → Option String → CreateSpaceInput → R CreateSpaceRecordInput
  unfolding validate_execution_user validate_visible_users
  prepare_create s tenant_id created_by input = do
    user ← validate_execution_user services s tenant_id input.mode input.execution_user_id
    ids ← validate_visible_users services s tenant_id input.visible_user_ids
    config ← as_bad_request (snapshot_for_create s tenant_id input.mode input.config)
    ok (record {
      tenant_id = tenant_id;
      mode = input.mode;
      name = input.name;
      execution_user_id = user;
      config = config;
      created_by_user_id = created_by;
      visible_user_ids = ids;
    })

  abbrev summarize : State → String → SpaceRow → R SpaceSummary
  summarize s tenant_id row = require_tenant services s tenant_id >>= λ tenant.
      ok (to_summary services row tenant.default_space_id)

  unfoldable pub create_managed :
      State → String → Option String → CreateSpaceInput → State × R SpaceSummary
  create_managed s tenant_id created_by input = elim (prepare_create s tenant_id created_by input) [
    | err e ↦ (s, err e)
    | ok row ↦ let (s', space) = create_space s row in (s', summarize s' tenant_id space)
  ]

  -- `create`
  unfoldable pub create : State → SpaceActorContext → CreateSpaceInput → State × R SpaceSummary
  create s context input = elim (resolve_manager_actor services s context) [
    | err e ↦ (s, err e)
    | ok actor ↦ create_managed s actor.tenant_id actor.created_by_user_id input
  ]

  -- An external space is checked with the user that it will have; a web space takes no user.
  unfoldable pub updated_execution_user :
      State → String → SpaceRow → Option (Option String) → R (Option (Option String))
  unfolding validate_execution_user
  updated_execution_user s tenant_id current requested = elim current.mode [
    | external ↦
        validate_execution_user services s tenant_id external
          (elim requested [ none ↦ current.execution_user_id | some user ↦ user ])
        >>= λ user. ok (some user)
    | web ↦ elim requested [
      | some (some _) ↦ fail 400 "SPACE_EXECUTION_USER_INVALID"
      | other ↦ ok other
    ]
  ]

  abbrev updated_ids : State → String → Option (List String) → R (Option (List String))
  updated_ids s tenant_id none = ok none
  updated_ids s tenant_id (some ids) =
      validate_visible_users services s tenant_id ids >>= λ valid. ok (some valid)

  abbrev updated_config : State → String → SpaceRow → Option Fields → R (Option Fields)
  updated_config s tenant_id current none = ok none
  updated_config s tenant_id current (some config) =
      as_bad_request
        (normalize_for_save s tenant_id current.mode (merge_space_config current.config config))
      >>= λ saved. ok (some saved)

  unfoldable pub prepare_update :
      State → String → String → UpdateSpaceInput → R (TenantRow × UpdateSpaceRecordInput)
  unfolding updated_execution_user require_space require_tenant validate_visible_users
  prepare_update s tenant_id space_id input = do
    current ← require_space services s tenant_id space_id
    tenant ← require_tenant services s tenant_id
    user ← updated_execution_user s tenant_id current input.execution_user_id
    ids ← updated_ids s tenant_id input.visible_user_ids
    config ← updated_config s tenant_id current input.config
    ok (
      tenant,
      record {
        name = input.name;
        execution_user_id = user;
        config = config;
        visible_user_ids = ids;
      },
    )

  unfoldable pub update_managed :
      State → String → String → UpdateSpaceInput → State × R SpaceSummary
  update_managed s tenant_id space_id input = elim (prepare_update s tenant_id space_id input) [
    | err e ↦ (s, err e)
    | ok (tenant, row) ↦
        let (s', updated) = update_space s tenant_id space_id row in
        (
          s',
          require_some updated (error 404 "SPACE_NOT_FOUND") >>= λ space.
              ok (to_summary services space tenant.default_space_id),
        )
  ]

  -- `update`
  unfoldable pub update :
      State → SpaceActorContext → String → UpdateSpaceInput → State × R SpaceSummary
  update s context space_id input = elim (resolve_manager_actor services s context) [
    | err e ↦ (s, err e)
    | ok actor ↦ update_managed s actor.tenant_id space_id input
  ]

  unfoldable pub check_delete : State → String → String → Option String → R (Unit {0})
  unfolding require_tenant check_replacement
  check_delete s tenant_id space_id replacement = do
    tenant ← require_tenant services s tenant_id
    let spaces = list_spaces s tenant_id
    current ← require_some (find_by_id (some space_id) spaces) (error 404 "SPACE_NOT_FOUND")
    check_replacement (opt_eq tenant.default_space_id space_id) space_id replacement spaces

  -- What follows the deletion of the space's rows.
  abbrev remove_files :
      State → DeletionGate → String → Option (List String) → Awaited State (Unit {0})
  remove_files s gate space_id none = (s, gate, err (access_error (error 404 "SPACE_NOT_FOUND")))
  remove_files s gate space_id (some keys) =
      and_await (remove_space_workspace s gate space_id)
        λ s' gate' _. remove_external_artifacts s' gate' keys

  -- The body of the `try`.
  unfoldable pub delete_listed :
      State → ℕ → DeletionGate → String → String → Option String → Awaited State (Unit {0})
  delete_listed s key gate tenant_id space_id replacement =
      and_await (list_threads_for_deletion s gate tenant_id space_id) λ s1 gate1 threads.
        and_await (wait_for_operations s1 (add_threads key threads gate1)) λ s2 gate2 _.
          and_await (stop_threads s2 gate2 threads) λ s3 gate3 _.
            and_await (delete_space s3 gate3 tenant_id space_id replacement)
              λ s4 gate4 deleted. remove_files s4 gate4 space_id deleted

  -- The `try`, its `catch`, and the `finally`, which ends the registration on every path.
  unfoldable pub delete_registered :
      State
      → ℕ
      → DeletionGate
      → String
      → String
      → Option String
      → State × DeletionGate × Result DeleteError (Unit {0})
  unfolding delete_listed
  delete_registered s key gate tenant_id space_id replacement =
      let (s', gate', result) = delete_listed s key gate tenant_id space_id replacement in
      (s', finish_deletion key gate', caught result)

  unfoldable pub delete_managed :
      State
      → DeletionGate
      → String
      → String
      → Option String
      → State × DeletionGate × Result DeleteError (Unit {0})
  delete_managed s gate tenant_id space_id replacement =
      elim (check_delete s tenant_id space_id replacement) [
        | err e ↦ (s, gate, err (access e))
        | ok _ ↦ elim (begin (space_scope tenant_id space_id) gate) [
          | err _ ↦ (s, gate, err (conflict "RESOURCE_DELETION_IN_PROGRESS"))
          | ok (key, gate') ↦ delete_registered s key gate' tenant_id space_id replacement
        ]
      ]

  -- `delete`
  unfoldable pub delete :
      State
      → DeletionGate
      → SpaceActorContext
      → String
      → Option String
      → State × DeletionGate × Result DeleteError (Unit {0})
  delete s gate context space_id replacement = elim (resolve_manager_actor services s context) [
    | err e ↦ (s, gate, err (access e))
    | ok actor ↦ delete_managed s gate actor.tenant_id space_id replacement
  ]
