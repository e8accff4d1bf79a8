-- ===== src/Spaces/Access.antt =====
-- server/src/spaces/access.ts, class SpaceAccessService: queries and validation.
-- The services are a parameter. A query is a function of the store's state; the order of summaries
-- by `localeCompare` is a parameter too.
pub mod Changes
pub mod Visibility
pub mod Authority
pub mod Ending
use run_forge.Base.{
  ℕ, String, str_eq, Bool, true, false, not, ◌&&◌, ◌||◌, Option, none, some, List, [], ◌∷◌, map,
  filter, find, if◌then◌else◌, contains, is_empty, Result, ok, err, ◌>>=◌, ◌>>◌, require_that,
  require_some, Fields,
}
use run_forge.Spaces.Input.{SpaceAccessError, SpaceMode, web, external, R, fail, unique}
use run_forge.Spaces.Rows.{
  TenantUserRole, owner, admin, member, UserStatus, UserRow, TenantRow, SpaceRow, Services,
}

-- The identity's own role is carried by the token, and is not what the service goes by.
pub data SpaceActorContext : Type 0 where
  tenant_actor : (tenant_id user_id : String) → TenantUserRole → SpaceActorContext
  system_actor : (tenant_id : String) → SpaceActorContext

pub record ResolvedTenantActor : Type 0 where
  pub tenant_id : String
  pub user_id : String
  pub role : TenantUserRole

pub record ManagerActor : Type 0 where
  pub tenant_id : String
  pub created_by_user_id : Option String

pub record SpaceSummary : Type 0 where
  pub id : String
  pub tenant_id : String
  pub mode : SpaceMode
  pub name : String
  pub execution_user_id : Option String
  pub config : Fields
  pub config_version : ℕ
  pub created_by_user_id : Option String
  pub visible_user_ids : List String
  pub is_default : Bool
  pub created_at : String
  pub updated_at : String

abbrev pub is_manager : TenantUserRole → Bool
is_manager owner = true
is_manager admin = true
is_manager member = false

abbrev pub is_active : UserStatus → Bool
is_active UserStatus.active = true
is_active UserStatus.disabled = false

abbrev pub error : ℕ → String → SpaceAccessError
error status code = record { status = status; code = code }

abbrev pub opt_eq : Option String → String → Bool
opt_eq none s = false
opt_eq (some t) s = str_eq t s

abbrev pub usable : String → UserRow → Bool
usable tenant_id user = str_eq user.tenant_id tenant_id && is_active user.status

-- Whether a user of the tenant sees a space.
abbrev pub sees : ResolvedTenantActor → SpaceRow → Bool
sees actor space = is_manager actor.role || contains space.visible_user_ids actor.user_id

abbrev pub is_web : SpaceMode → Bool
is_web web = true
is_web external = false

-- `requestedSpaceId ?? tenant.default_space_id`
abbrev chosen_space : Option String → Option String → Option String
chosen_space (some id) fallback = some id
chosen_space none fallback = fallback

-- `if (!spaceId) throw`: a missing or an empty id.
abbrev present_id : Option String → R String
present_id none = fail 409 "DEFAULT_SPACE_MISSING"
present_id (some id) = if str_eq id "" then fail 409 "DEFAULT_SPACE_MISSING" else ok id

-- `users.get(id)` of the map that is built from the rows.
unfoldable pub find_user : String → List UserRow → Option UserRow
find_user id [] = none
find_user id (u ∷ us) = if str_eq u.id id then some u else find_user id us

abbrev pub is_member_role : TenantUserRole → Bool
is_member_role member = true
is_member_role _ = false

abbrev is_member : Option UserRow → Bool
is_member none = false
is_member (some user) = is_member_role user.role

unfoldable pub check_members : List UserRow → List String → R (Unit {0})
unfolding find_user
check_members users [] = ok tt
check_members users (id ∷ ids) =
    require_that (is_member (find_user id users)) (error 400 "SPACE_VISIBLE_USER_INVALID")
    >> check_members users ids

module _ (services : Services) where
  open services use {
    State, find_user_by_id, find_tenant, find_space, list_spaces, list_users_by_tenant,
    normalize_space_config, locale_le,
  }

  unfoldable pub resolve_tenant_actor : State → String → String → R ResolvedTenantActor
  resolve_tenant_actor s tenant_id user_id = do
    user ← require_some (find_user_by_id s user_id) (error 403 "SPACE_ACTOR_DISABLED")
    require_that (usable tenant_id user) (error 403 "SPACE_ACTOR_DISABLED")
    ok (record { tenant_id = user.tenant_id; user_id = user.id; role = user.role })

  unfoldable pub require_manager : State → String → String → R ResolvedTenantActor
  require_manager s tenant_id user_id = do
    actor ← resolve_tenant_actor s tenant_id user_id
    require_that (is_manager actor.role) (error 403 "SPACE_MANAGE_FORBIDDEN")
    ok actor

  unfoldable pub require_tenant : State → String → R TenantRow
  require_tenant s tenant_id = require_some (find_tenant s tenant_id) (error 404 "TENANT_NOT_FOUND")

  unfoldable pub require_space : State → String → String → R SpaceRow
  require_space s tenant_id space_id =
      require_some (find_space s tenant_id space_id) (error 404 "SPACE_NOT_FOUND")

  unfoldable pub resolve_manager_actor : State → SpaceActorContext → R ManagerActor
  unfolding require_tenant
  resolve_manager_actor s (system_actor tenant_id) = do
    require_tenant s tenant_id
    ok (record { tenant_id = tenant_id; created_by_user_id = none })
  resolve_manager_actor s (tenant_actor tenant_id user_id _) = do
    actor ← require_manager s tenant_id user_id
    ok (record { tenant_id = actor.tenant_id; created_by_user_id = some actor.user_id })

  unfoldable pub to_summary : SpaceRow → Option String → SpaceSummary
  to_summary space default_space_id = record {
    id = space.id;
    tenant_id = space.tenant_id;
    mode = space.mode;
    name = space.name;
    execution_user_id = space.execution_user_id;
    config = normalize_space_config space.config space.mode;
    config_version = space.config_version;
    created_by_user_id = space.created_by_user_id;
    visible_user_ids = space.visible_user_ids;
    is_default = opt_eq default_space_id space.id;
    created_at = space.created_at;
    updated_at = space.updated_at;
  }

  -- The comparison of `sort`: the default space first, then by the time of creation.
  unfoldable pub comes_before : SpaceSummary → SpaceSummary → Bool
  comes_before a b =
      if a.is_default && not b.is_default
      then true
      else if b.is_default && not a.is_default
      then false
      else locale_le a.created_at b.created_at

  -- `sort` is stable: an element stays before those that it does not follow.
  unfoldable pub insert_summary : SpaceSummary → List SpaceSummary → List SpaceSummary
  insert_summary a [] = a ∷ []
  insert_summary a (b ∷ rest) = if comes_before a b then a ∷ b ∷ rest else b ∷ insert_summary a rest

  unfoldable pub sort_summaries : List SpaceSummary → List SpaceSummary
  unfolding insert_summary comes_before
  sort_summaries [] = []
  sort_summaries (a ∷ rest) = insert_summary a (sort_summaries rest)

  unfoldable pub to_summaries : State → String → List SpaceRow → R (List SpaceSummary)
  unfolding require_tenant
  to_summaries s tenant_id spaces = do
    tenant ← require_tenant s tenant_id
    ok (sort_summaries (map (λ space. to_summary space tenant.default_space_id) spaces))

  unfoldable pub list : State → SpaceActorContext → R (List SpaceSummary)
  unfolding require_tenant
  list s (system_actor tenant_id) = do
    require_tenant s tenant_id
    to_summaries s tenant_id (list_spaces s tenant_id)
  list s (tenant_actor tenant_id user_id _) = do
    actor ← resolve_tenant_actor s tenant_id user_id
    let rows = list_spaces s actor.tenant_id
    to_summaries s actor.tenant_id (
        if is_manager actor.role
        then rows
        else filter (λ space. contains space.visible_user_ids actor.user_id) rows)

  unfoldable pub get : State → SpaceActorContext → String → R SpaceSummary
  unfolding require_tenant require_space
  get s (system_actor tenant_id) space_id = do
    tenant ← require_tenant s tenant_id
    space ← require_space s tenant_id space_id
    ok (to_summary space tenant.default_space_id)
  get s (tenant_actor tenant_id user_id _) space_id = do
    actor ← resolve_tenant_actor s tenant_id user_id
    space ← require_space s actor.tenant_id space_id
    require_that (sees actor space) (error 404 "SPACE_NOT_FOUND")
    tenant ← require_tenant s actor.tenant_id
    ok (to_summary space tenant.default_space_id)

  unfoldable pub require_managed_space : State → SpaceActorContext → String → R SpaceSummary
  unfolding resolve_manager_actor require_tenant require_space
  require_managed_space s context space_id = do
    actor ← resolve_manager_actor s context
    tenant ← require_tenant s actor.tenant_id
    space ← require_space s actor.tenant_id space_id
    ok (to_summary space tenant.default_space_id)

  unfoldable pub require_writable_web_space :
      State → String → String → Option String → R SpaceSummary
  unfolding require_tenant require_space
  require_writable_web_space s tenant_id user_id requested = do
    actor ← resolve_tenant_actor s tenant_id user_id
    tenant ← require_tenant s actor.tenant_id
    space_id ← present_id (chosen_space requested tenant.default_space_id)
    space ← require_space s actor.tenant_id space_id
    require_that (is_web space.mode) (error 403 "SPACE_READ_ONLY")
    require_that (sees actor space) (error 404 "SPACE_NOT_FOUND")
    ok (to_summary space tenant.default_space_id)

  unfoldable pub validate_execution_user :
      State → String → SpaceMode → Option String → R (Option String)
  validate_execution_user s tenant_id web none = ok none
  validate_execution_user s tenant_id web (some _) = fail 400 "SPACE_EXECUTION_USER_INVALID"
  validate_execution_user s tenant_id external none = fail 400 "SPACE_EXECUTION_USER_REQUIRED"
  validate_execution_user s tenant_id external (some user_id) = do
    require_that (not (str_eq user_id "")) (error 400 "SPACE_EXECUTION_USER_REQUIRED")
    user ← require_some (find_user_by_id s user_id) (error 400 "SPACE_EXECUTION_USER_INVALID")
    require_that (usable tenant_id user) (error 400 "SPACE_EXECUTION_USER_INVALID")
    ok (some user.id)

  unfoldable pub validate_visible_users : State → String → List String → R (List String)
  unfolding check_members
  validate_visible_users s tenant_id ids =
      if is_empty ids
      then ok []
      else (check_members (list_users_by_tenant s tenant_id) ids >> ok (unique ids))
