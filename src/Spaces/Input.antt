-- ===== src/Spaces/Input.antt =====
-- server/src/spaces/access.ts, lines 28 to 149: the bodies of requests, read from untyped values.
-- An error has its HTTP status and code; its message is left out.
use run_forge.Base.{
  ℕ, String, str_eq, Bool, true, false, not, ◌&&◌, ◌||◌, Option, none, some, List, [], ◌∷◌, ◌++◌,
  if◌then◌else◌, any, contains, map, trim, is_some, Result, ok, err, ◌>>=◌, ◌>>◌, require_that,
  Value, undefined, null, string, array, object, Fields, no_fields, elements, field, has_own,
}
pub mod Laws

pub record SpaceAccessError : Type 0 where
  pub status : ℕ
  pub code : String

abbrev pub fail : {A : Type 0} → ℕ → String → Result SpaceAccessError A
fail status code = err (record { status = status; code = code })

pub data SpaceMode : Type 0 where
  web external : SpaceMode

pub record CreateSpaceInput : Type 0 where
  pub mode : SpaceMode
  pub name : String
  pub execution_user_id : Option String
  pub config : Fields
  pub visible_user_ids : List String

-- A field that is not set is `none`; `execution_user_id` may also be set to null.
pub record UpdateSpaceInput : Type 0 where
  pub name : Option String
  pub execution_user_id : Option (Option String)
  pub config : Option Fields
  pub visible_user_ids : Option (List String)

pub record DeleteSpaceInput : Type 0 where
  pub replacement_default_space_id : Option String

abbrev pub R : Type 0 → Type 0
R A = Result SpaceAccessError A

unfoldable pub plain_record : Value → String → R Fields
plain_record (object fields) code = ok fields
plain_record _ code = fail 400 code

abbrev trimmed : Value → String
trimmed v = elim v [ string s ↦ trim s | _ ↦ "" ]

unfoldable pub normalized_name : Value → R String
normalized_name value =
    let name = trimmed value in if str_eq name "" then fail 400 "SPACE_NAME_REQUIRED" else ok name

-- `[...new Set(ids)]`: the first occurrence of each id.
unfoldable pub unique_from : List String → List String → List String
unique_from seen [] = []
unique_from seen (id ∷ ids) =
    let rest = unique_from (if contains seen id then seen else id ∷ seen) ids in
    if contains seen id then rest else id ∷ rest

unfoldable pub unique : List String → List String
unfolding unique_from
unique ids = unique_from [] ids

abbrev is_blank : String → Bool
is_blank s = str_eq s ""

unfoldable pub normalized_user_ids : Value → R (List String)
normalized_user_ids value = elim value [
  | array items ↦
      let ids = map trimmed (elements items) in
      if any is_blank ids then fail 400 "SPACE_VISIBLE_USERS_INVALID" else ok (unique ids)
  | _ ↦ fail 400 "SPACE_VISIBLE_USERS_INVALID"
]

unfoldable pub parse_mode : Value → R SpaceMode
parse_mode value = elim value [
  | string s ↦
      if str_eq s "web"
      then ok web
      else if str_eq s "external"
      then ok external
      else fail 400 "SPACE_MODE_INVALID"
  | _ ↦ fail 400 "SPACE_MODE_INVALID"
]

-- A user id that is given must be a non-empty string.
unfoldable pub parse_user_id : String → Value → R String
parse_user_id code value = elim value [
  | string s ↦ if str_eq (trim s) "" then fail 400 code else ok (trim s)
  | _ ↦ fail 400 code
]

abbrev or_empty_config : Value → Value
or_empty_config v = elim v [ undefined ↦ object no_fields | other ↦ other ]

abbrev optional_ids : Value → R (List String)
optional_ids v = elim v [ undefined ↦ ok [] | other ↦ normalized_user_ids other ]

-- `value.executionUserId != null`
abbrev optional_user : Value → R (Option String)
optional_user v = elim v [
  | undefined ↦ ok none
  | null ↦ ok none
  | other ↦ parse_user_id "SPACE_EXECUTION_USER_INVALID" other >>= λ id. ok (some id)
]

unfoldable pub parse_create_space_input : Value → R CreateSpaceInput
unfolding plain_record parse_mode normalized_user_ids parse_user_id normalized_name
parse_create_space_input value = do
  fields ← plain_record value "SPACE_INPUT_INVALID"
  mode ← parse_mode (field "mode" fields)
  config ← plain_record (or_empty_config (field "config" fields)) "SPACE_CONFIG_INVALID"
  ids ← optional_ids (field "visibleUserIds" fields)
  user ← optional_user (field "executionUserId" fields)
  name ← normalized_name (field "name" fields)
  ok (record {
    mode = mode;
    name = name;
    execution_user_id = user;
    config = config;
    visible_user_ids = ids;
  })

-- A field of an update is read only if the body has it.
abbrev when_own : {A : Type 0} → String → Fields → (Value → R A) → R (Option A)
when_own key fields read =
    if has_own key fields then (read (field key fields) >>= λ a. ok (some a)) else ok none

abbrev nullable_user : Value → R (Option String)
nullable_user v = elim v [
  | null ↦ ok none
  | other ↦ parse_user_id "SPACE_EXECUTION_USER_INVALID" other >>= λ id. ok (some id)
]

abbrev immutable : SpaceAccessError
immutable = record { status = 400; code = "SPACE_MODE_IMMUTABLE" }

abbrev empty_update : SpaceAccessError
empty_update = record { status = 400; code = "SPACE_UPDATE_EMPTY" }

unfoldable pub parse_update_space_input : Value → R UpdateSpaceInput
unfolding plain_record parse_user_id normalized_user_ids normalized_name
parse_update_space_input value = do
  fields ← plain_record value "SPACE_INPUT_INVALID"
  require_that (not (has_own "mode" fields)) immutable
  name ← when_own "name" fields normalized_name
  user ← when_own "executionUserId" fields nullable_user
  config ← when_own "config" fields (λ v. plain_record v "SPACE_CONFIG_INVALID")
  ids ← when_own "visibleUserIds" fields normalized_user_ids
  require_that (is_some name || is_some user || is_some config || is_some ids) empty_update
  ok (record { name = name; execution_user_id = user; config = config; visible_user_ids = ids })

abbrev no_replacement : DeleteSpaceInput
no_replacement = record { replacement_default_space_id = none }

abbrev replacement : Value → R DeleteSpaceInput
replacement v = elim v [
  | undefined ↦ ok no_replacement
  | other ↦ parse_user_id "SPACE_REPLACEMENT_INVALID" other >>= λ id.
      ok (record { replacement_default_space_id = some id })
]

unfoldable pub parse_delete_space_input : Value → R DeleteSpaceInput
unfolding plain_record parse_user_id
parse_delete_space_input value = elim value [
  | undefined ↦ ok no_replacement
  | null ↦ ok no_replacement
  | other ↦ plain_record other "SPACE_DELETE_INPUT_INVALID" >>= λ fields.
      replacement (field "replacementDefaultSpaceId" fields)
]
