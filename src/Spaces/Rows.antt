-- ===== src/Spaces/Rows.antt =====
-- server/src/store/types.ts: the rows that the space service reads and writes, and the store and
-- configuration services that it is given. Their implementations stand elsewhere, so they are
-- parameters here: a function of a state for a query, one that returns a new state for a write.
use run_forge.Base.{ℕ, String, Bool, Option, List, Fields, Result}
use run_forge.Spaces.Input.{SpaceAccessError, SpaceMode}
use run_forge.Deletion.Gate.{DeletionGate}

pub data TenantUserRole : Type 0 where
  owner admin member : TenantUserRole

pub data UserStatus : Type 0 where
  active disabled : UserStatus

pub record UserRow : Type 0 where
  pub id : String
  pub tenant_id : String
  pub email : String
  pub password_hash : String
  pub role : TenantUserRole
  pub status : UserStatus
  pub is_bootstrap : Bool
  pub created_at : String

pub data TenantStatus : Type 0 where
  active suspended : TenantStatus

pub record TenantRow : Type 0 where
  pub id : String
  pub name : String
  pub status : TenantStatus
  pub is_bootstrap : Bool
  pub default_space_id : Option String
  pub created_at : String

-- A space row with the users of its visibility list.
pub record SpaceRow : Type 0 where
  pub id : String
  pub tenant_id : String
  pub mode : SpaceMode
  pub name : String
  pub execution_user_id : Option String
  pub config : Fields
  pub config_version : ℕ
  pub created_by_user_id : Option String
  pub created_at : String
  pub updated_at : String
  pub visible_user_ids : List String

pub record CreateSpaceRecordInput : Type 0 where
  pub tenant_id : String
  pub mode : SpaceMode
  pub name : String
  pub execution_user_id : Option String
  pub config : Fields
  pub created_by_user_id : Option String
  pub visible_user_ids : List String

pub record UpdateSpaceRecordInput : Type 0 where
  pub name : Option String
  pub execution_user_id : Option (Option String)
  pub config : Option Fields
  pub visible_user_ids : Option (List String)

-- What a call throws: a DeleteConflictError with its code, a SpaceAccessError, or another error.
pub data Thrown : Type 0 where
  delete_conflict : String → Thrown
  access_error : SpaceAccessError → Thrown
  other_error : String → Thrown

-- What an awaited call leaves: the store and the gate, which other code may have changed too while the
-- call was awaited, and its value or what it throws.
abbrev pub Awaited : Type 0 → Type 0 → Type 0
Awaited S A = S × DeletionGate × Result Thrown A

pub record Services : Type 1 where
  pub State : Type 0
  pub find_user_by_id : State → String → Option UserRow
  pub find_tenant : State → String → Option TenantRow
  pub find_space : State → String → String → Option SpaceRow
  pub list_spaces : State → String → List SpaceRow
  pub list_users_by_tenant : State → String → List UserRow
  pub create_space : State → CreateSpaceRecordInput → State × SpaceRow
  pub update_space : State → String → String → UpdateSpaceRecordInput → State × Option SpaceRow
  -- The calls of a deletion, each of which is awaited and may throw. A space that is gone is `none`.
  pub list_threads_for_deletion :
      State → DeletionGate → String → String → Awaited State (List String)
  pub wait_for_operations : State → DeletionGate → Awaited State (Unit {0})
  pub stop_threads : State → DeletionGate → List String → Awaited State (Unit {0})
  pub delete_space :
      State → DeletionGate → String → String → Option String → Awaited State (Option (List String))
  pub remove_space_workspace : State → DeletionGate → String → Awaited State (Unit {0})
  pub remove_external_artifacts : State → DeletionGate → List String → Awaited State (Unit {0})
  -- The configuration service; an error is the code of a SpaceConfigError.
  pub normalize_space_config : Fields → SpaceMode → Fields
  pub normalize_for_save : State → String → SpaceMode → Fields → Result String Fields
  pub snapshot_for_create : State → String → SpaceMode → Fields → Result String Fields
  -- `a.localeCompare(b) <= 0`
  pub locale_le : String → String → Bool
