-- ===== src/Store/Users.antt =====
-- server/src/store/memoryStore.ts, class MemoryStore: users and their tokens.
pub mod Keeping
pub mod Owners
use run_forge.Base.{
  String, str_eq, Bool, true, false, not, ◌&&◌, ◌||◌, Option, none, some, List, [], ◌∷◌,
  if◌then◌else◌, on_some, filter, find, truthy, is_some, Table, find_row, set_row, remove_rows,
  map_rows, ids_where, any_row, rows, Result, ok, err, require_that, ◌>>=◌, ◌>>◌,
}
use run_forge.Spaces.Rows.{UserRow, UserStatus, active, TenantUserRole, owner}
use run_forge.Spaces.Access.{opt_eq}
use run_forge.Store.Rows.{StoreError, failed, delete_conflict}
use run_forge.Store.State.{
  MemoryStore, StoredSpace, TokenKind, refresh, AuthTokenRow, PushSubscriptionRow,
}
use run_forge.Store.Runs.{R, or_value}

abbrev pub is_owner : TenantUserRole → Bool
is_owner role = elim role [ owner ↦ true | _ ↦ false ]

pub record CreateUserInput : Type 0 where
  pub tenant_id : String
  pub email : String
  pub password_hash : String
  pub role : TenantUserRole
  pub is_bootstrap : Option Bool

abbrev pub new_user : (id now : String) → CreateUserInput → UserRow
new_user id now input = record {
  id = id;
  tenant_id = input.tenant_id;
  email = input.email;
  password_hash = input.password_hash;
  role = input.role;
  status = active;
  is_bootstrap = or_value input.is_bootstrap false;
  created_at = now;
}

abbrev pub put_user : String → UserRow → MemoryStore → MemoryStore
put_user id user s = record s { users = set_row id user s.users }

unfoldable pub create_user :
    MemoryStore → (id now : String) → CreateUserInput → MemoryStore × UserRow
create_user s id now input = let user = new_user id now input in (put_user id user s, user)

unfoldable find_user_by_email : MemoryStore → (tenant_id email : String) → Option UserRow
find_user_by_email s tenant_id email =
    find (λ user. str_eq user.tenant_id tenant_id && str_eq user.email email) (rows s.users)

-- The fields that an update gives: `none` for one it does not.
pub record UserFields : Type 0 where
  pub email : Option String
  pub password_hash : Option String
  pub role : Option TenantUserRole
  pub status : Option UserStatus

abbrev pub assign_user : UserFields → UserRow → UserRow
assign_user fields user = record user {
  email = or_value fields.email user.email;
  password_hash = or_value fields.password_hash user.password_hash;
  role = or_value fields.role user.role;
  status = or_value fields.status user.status;
}

-- `hasOtherOwner`, and `otherOwners` of `deleteUser`.
unfoldable pub has_other_owner : MemoryStore → (tenant_id id : String) → Bool
has_other_owner s tenant_id id =
    any_row
      (λ user. str_eq user.tenant_id tenant_id && not (str_eq user.id id) && is_owner user.role)
      s.users

-- The role is given, and is not `owner`.
abbrev pub takes_ownership : Option TenantUserRole → Bool
takes_ownership none = false
takes_ownership (some role) = not (is_owner role)

unfoldable pub update_user : MemoryStore → String → UserFields → R (MemoryStore × Option UserRow)
unfolding has_other_owner
update_user s id fields = on_some (find_row id s.users) (ok (s, none)) λ user.
    if is_owner user.role
      && takes_ownership fields.role
      && not (has_other_owner s user.tenant_id user.id)
    then err (delete_conflict "LAST_OWNER_PROTECTED")
    else let next = assign_user fields user in ok (put_user id next s, some next)

abbrev without_creator : (tenant_id id : String) → StoredSpace → StoredSpace
without_creator tenant_id id space =
    if str_eq space.tenant_id tenant_id && opt_eq space.created_by_user_id id
    then record space { created_by_user_id = none }
    else space

abbrev pub forget_user : (tenant_id id : String) → MemoryStore → MemoryStore
forget_user tenant_id id s = record s {
  spaces = map_rows (without_creator tenant_id id) s.spaces;
  space_visible_users = map_rows (filter λ user_id. not (str_eq user_id id)) s.space_visible_users;
  auth_tokens =
      remove_rows (ids_where (λ token. str_eq token.user_id id) s.auth_tokens) s.auth_tokens;
  push_subscriptions =
      remove_rows (ids_where (λ subscription. opt_eq subscription.user_id id) s.push_subscriptions)
        s.push_subscriptions;
  users = remove_rows (id ∷ []) s.users;
}

unfoldable pub has_threads : MemoryStore → (tenant_id id : String) → Bool
has_threads s tenant_id id =
    any_row (λ thread. str_eq thread.tenant_id tenant_id && opt_eq thread.user_id id) s.threads

unfoldable pub executes_spaces : MemoryStore → (tenant_id id : String) → Bool
executes_spaces s tenant_id id =
    any_row (λ space. str_eq space.tenant_id tenant_id && opt_eq space.execution_user_id id)
      s.spaces

-- What a user's deletion requires.
unfoldable pub check_delete_user : MemoryStore → (tenant_id id : String) → UserRow → R Unit
unfolding has_other_owner has_threads executes_spaces
check_delete_user s tenant_id id target = do
  require_that (not target.is_bootstrap) (delete_conflict "DEFAULT_ADMIN_PROTECTED")
  require_that (not (has_threads s tenant_id id)) (delete_conflict "USER_HAS_THREADS")
  require_that (not (executes_spaces s tenant_id id)) (delete_conflict "USER_IS_EXECUTION_USER")
  require_that (not (is_owner target.role) || has_other_owner s tenant_id id)
      (delete_conflict "LAST_OWNER_PROTECTED")

-- `deleteUser`: whether a user of the tenant is deleted.
unfoldable pub delete_user : MemoryStore → (tenant_id id : String) → R (MemoryStore × Bool)
unfolding check_delete_user
delete_user s tenant_id id = on_some (find_row id s.users) (ok (s, false)) λ target.
    if not (str_eq target.tenant_id tenant_id)
    then ok (s, false)
    else do check_delete_user s tenant_id id target; ok (forget_user tenant_id id s, true)

unfoldable pub mark_bootstrap_user : MemoryStore → String → R (MemoryStore × UserRow)
mark_bootstrap_user s id =
    on_some (find_row id s.users) (err (failed "user"))
      λ user. let marked = record user { is_bootstrap = true } in ok (put_user id marked s, marked)

abbrev is_refresh : TokenKind → Bool
is_refresh kind = elim kind [ refresh ↦ true | _ ↦ false ]

abbrev revoke_refresh : (user_id now : String) → AuthTokenRow → AuthTokenRow
revoke_refresh user_id now token =
    if str_eq token.user_id user_id && is_refresh token.kind && not (is_some token.revoked_at)
    then record token { revoked_at = some now }
    else token

unfoldable revoke_refresh_tokens_by_user : MemoryStore → (user_id now : String) → MemoryStore
revoke_refresh_tokens_by_user s user_id now = record s {
  auth_tokens = map_rows (revoke_refresh user_id now) s.auth_tokens;
}

pub record CreateAuthTokenInput : Type 0 where
  pub tenant_id : String
  pub user_id : String
  pub kind : TokenKind
  pub token_hash : String
  pub label : Option String
  pub expires_at : Option String

abbrev new_auth_token : (id now : String) → CreateAuthTokenInput → AuthTokenRow
new_auth_token id now input = record {
  id = id;
  tenant_id = input.tenant_id;
  user_id = input.user_id;
  kind = input.kind;
  token_hash = input.token_hash;
  label = input.label;
  created_at = now;
  expires_at = input.expires_at;
  revoked_at = none;
}

unfoldable create_auth_token :
    MemoryStore → (id now : String) → CreateAuthTokenInput → MemoryStore × AuthTokenRow
create_auth_token s id now input =
    let token = new_auth_token id now input in
    (record s { auth_tokens = set_row id token s.auth_tokens }, token)

unfoldable find_auth_token_by_hash : MemoryStore → String → Option AuthTokenRow
find_auth_token_by_hash s token_hash =
    find (λ token. str_eq token.token_hash token_hash) (rows s.auth_tokens)

unfoldable revoke_auth_token : MemoryStore → (id now : String) → MemoryStore
revoke_auth_token s id now = on_some (find_row id s.auth_tokens) s λ token.
    if truthy token.revoked_at then s else record s {
      auth_tokens = set_row id (record token { revoked_at = some now }) s.auth_tokens;
    }
