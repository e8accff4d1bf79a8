-- ===== src/Spaces/Tests.antt =====
-- A small tenant, and the space service's theorems at concrete requests.
use mathlib.Core.List.{Perm}
use run_forge.Base.{
  map, is_white, ◌≡◌, refl, true, false, none, some, List, [], ◌∷◌, filter, contains, ok, err, trim,
  string, object, array, no_fields, cons_field, no_values, cons_value, Value, Fields, field,
  has_own, String, str_eq, if◌then◌else◌, All, ◌≢◌, ◌⊎◌, inr,
}
use run_forge.Deletion.Gate.{empty_gate, begin, is_blocked, is_blocked_by}
use run_forge.Spaces.Input.{
  SpaceAccessError, SpaceMode, web, external, CreateSpaceInput, UpdateSpaceInput,
  parse_create_space_input, parse_mode, normalized_name, normalized_user_ids, unique, unique_from,
  plain_record,
}
use run_forge.Spaces.Input.Laws.{IsClean, parse_create_space_input-IsClean}
use run_forge.Spaces.Merge.{capabilities, setting, merge_space_config, merge_space_config-setting}
use run_forge.Spaces.Rows.{
  TenantUserRole, owner, member, UserStatus, UserRow, TenantRow, TenantStatus, SpaceRow,
  CreateSpaceRecordInput, other_error, Services,
}
use run_forge.Spaces.Access.{
  SpaceActorContext, tenant_actor, ResolvedTenantActor, SpaceSummary, find_user,
  resolve_tenant_actor, require_writable_web_space, is_web, get, list, to_summary, to_summaries,
  sort_summaries, insert_summary, sees, require_tenant, require_space, require_manager,
  resolve_manager_actor, validate_execution_user, validate_visible_users, check_members,
}
use run_forge.Spaces.Access.Changes.{
  delete, check_delete, prepare_create, delete_managed, delete_registered, delete_listed, access,
  conflict, thrown, space_scope, check_replacement, find_by_id,
}
use run_forge.Spaces.Access.Visibility.{
  IsSeen, get-IsSeen, require_writable_web_space-IsSeen, sees_summary, list-All_seen,
}
use run_forge.Spaces.Access.Authority.{
  IsAuthorized, changes-IsAuthorized, IsFit, prepare_create-IsFit,
}
use run_forge.Spaces.Access.Ending.{IsReleased, delete_managed-releases, check_delete-default}

abbrev person : String → TenantUserRole → UserRow
person id role = record {
  id = id;
  tenant_id = "t";
  email = id;
  password_hash = "";
  role = role;
  status = UserStatus.active;
  is_bootstrap = false;
  created_at = "";
}

abbrev people : List UserRow
people = person "ann" owner ∷ person "bob" member ∷ person "eve" member ∷ []

abbrev office : TenantRow
office = record {
  id = "t";
  name = "Office";
  status = TenantStatus.active;
  is_bootstrap = false;
  default_space_id = some "s1";
  created_at = "";
}

abbrev room : String → SpaceMode → List String → SpaceRow
room id mode ids = record {
  id = id;
  tenant_id = "t";
  mode = mode;
  name = id;
  execution_user_id = none;
  config = no_fields;
  config_version = 1;
  created_by_user_id = none;
  created_at = "";
  updated_at = "";
  visible_user_ids = ids;
}

abbrev rooms : List SpaceRow
rooms = room "s1" web ("bob" ∷ []) ∷ room "s2" web ("eve" ∷ []) ∷ []

abbrev services : Services
services = record {
  State = List SpaceRow;
  find_user_by_id = λ _ id. find_user id people;
  find_tenant = λ _ id. if str_eq id "t" then some office else none;
  find_space = λ s _ id. find_by_id (some id) s;
  list_spaces = λ s _. s;
  list_users_by_tenant = λ _ _. people;
  create_space = λ s row. (s, room "s3" row.mode row.visible_user_ids);
  update_space = λ s _ id _. (s, find_by_id (some id) s);
  list_threads_for_deletion = λ s gate _ _. (s, gate, ok ("th1" ∷ []));
  wait_for_operations = λ s gate. (s, gate, ok tt);
  stop_threads = λ s gate _. (s, gate, ok tt);
  delete_space = λ s gate _ _ _. (s, gate, ok (some []));
  remove_space_workspace = λ s gate _. (s, gate, ok tt);
  remove_external_artifacts = λ s gate _. (s, gate, ok tt);
  normalize_space_config = λ config _. config;
  normalize_for_save = λ _ _ _ config. ok config;
  snapshot_for_create = λ _ _ _ config. ok config;
  locale_le = λ _ _. true;
}

abbrev ann : SpaceActorContext
ann = tenant_actor "t" "ann" owner

abbrev bob : SpaceActorContext
bob = tenant_actor "t" "bob" member

abbrev resolved_bob : ResolvedTenantActor
resolved_bob = record { tenant_id = "t"; user_id = "bob"; role = member }

bob-resolved : resolve_tenant_actor services rooms "t" "bob" ≡ ok resolved_bob
unfolding resolve_tenant_actor find_user
bob-resolved = refl

abbrev first_summary : SpaceSummary
first_summary = record {
  id = "s1";
  tenant_id = "t";
  mode = web;
  name = "s1";
  execution_user_id = none;
  config = no_fields;
  config_version = 1;
  created_by_user_id = none;
  visible_user_ids = "bob" ∷ [];
  is_default = true;
  created_at = "";
  updated_at = "";
}

get-IsSeen_example : IsSeen services rooms "t" "bob" first_summary
unfolding get resolve_tenant_actor require_space require_tenant find_user find_by_id contains
    to_summary
get-IsSeen_example = get-IsSeen services rooms "t" "bob" member "s1" {summary = first_summary} refl

require_writable_web_space-IsSeen_example :
    IsSeen services rooms "t" "bob" first_summary × (is_web first_summary.mode ≡ true)
unfolding require_writable_web_space resolve_tenant_actor require_space require_tenant find_user
    find_by_id contains to_summary
require_writable_web_space-IsSeen_example =
    require_writable_web_space-IsSeen services rooms "t" "bob" none {summary = first_summary} refl

list-All_seen_example :
    All (λ summary. sees_summary services resolved_bob summary ≡ true) (first_summary ∷ [])
    × ((tenant : TenantRow) × (services.find_tenant rooms "t" ≡ some tenant)
        × Perm (first_summary ∷ []) (
            map
              (λ space. to_summary services space tenant.default_space_id)
              (filter (sees resolved_bob) rooms)))
unfolding list to_summaries sort_summaries insert_summary resolve_tenant_actor require_tenant
    find_user contains to_summary
list-All_seen_example =
    list-All_seen services rooms "t" "bob" member resolved_bob (first_summary ∷ []) bob-resolved
      refl

asked : CreateSpaceInput
asked = record {
  mode = external;
  name = "desk";
  execution_user_id = some "eve";
  config = no_fields;
  visible_user_ids = "bob" ∷ "eve" ∷ "bob" ∷ [];
}

abbrev stored : CreateSpaceRecordInput
stored = record {
  tenant_id = "t";
  mode = external;
  name = "desk";
  execution_user_id = some "eve";
  config = no_fields;
  created_by_user_id = some "ann";
  visible_user_ids = "bob" ∷ "eve" ∷ [];
}

prepare_create-IsFit_example : IsFit services rooms "t" asked stored
unfolding prepare_create validate_execution_user validate_visible_users check_members find_user
    unique unique_from contains asked
prepare_create-IsFit_example =
    prepare_create-IsFit services rooms "t" (some "ann") asked {row = stored} refl

no_change : UpdateSpaceInput
no_change = record { name = none; execution_user_id = none; config = none; visible_user_ids = none }

changes-IsAuthorized_example : IsAuthorized services rooms ann
unfolding delete resolve_manager_actor require_manager resolve_tenant_actor find_user delete_managed
    check_delete require_tenant check_replacement find_by_id begin is_blocked is_blocked_by
    delete_registered delete_listed
changes-IsAuthorized_example =
    changes-IsAuthorized services rooms empty_gate ann "s1" asked no_change (some "s2")
      first_summary (inr (inr refl))

-- A deletion whose stopping throws.
abbrev failing : Services
failing = record services { stop_threads = λ s gate _. (s, gate, err (other_error "stuck")) }

delete_managed_test :
    (delete_managed failing rooms empty_gate "t" "s1" (some "s2")).2 ≡ err (thrown "stuck")
unfolding delete_managed check_delete require_tenant check_replacement find_by_id begin is_blocked
    is_blocked_by delete_registered delete_listed
delete_managed_test = refl

delete_managed-releases_example :
    let checked = check_delete failing rooms "t" "s1" (some "s2") in
    let blocked = is_blocked empty_gate (space_scope "t" "s1") in
    let after = delete_managed failing rooms empty_gate "t" "s1" (some "s2") in
    ((e : SpaceAccessError) × (checked ≡ err e) × (after ≡ (rooms, empty_gate, err (access e))))
    ⊎ ((checked ≡ ok tt)
        × (blocked ≡ true)
        × (after ≡ (rooms, empty_gate, err (conflict "RESOURCE_DELETION_IN_PROGRESS"))))
    ⊎ ((checked ≡ ok tt) × (blocked ≡ false) × IsReleased 0 after.1.active)
delete_managed-releases_example =
    delete_managed-releases failing rooms empty_gate "t" "s1" (some "s2")

check_delete-default_example :
    (id : String) × (space : SpaceRow) × (some "s2" ≡ some id)
    × (id ≢ "s1")
    × (find_by_id (some id) rooms ≡ some space)
    × (space.mode ≡ web)
unfolding check_delete require_tenant check_replacement find_by_id
check_delete-default_example =
    check_delete-default services rooms "t" "s1" (some "s2") office refl refl refl

abbrev create_body : Value
create_body = object (
    cons_field "mode" (string "web") (
      cons_field "name" (string "desk") (
        cons_field "visibleUserIds"
          (array (cons_value (string "bob") (cons_value (string "bob") no_values))) no_fields)))

abbrev created : CreateSpaceInput
created = record {
  mode = web;
  name = "desk";
  execution_user_id = none;
  config = no_fields;
  visible_user_ids = "bob" ∷ [];
}

parse_create_space_input-IsClean_example : IsClean created
unfolding parse_create_space_input plain_record parse_mode normalized_user_ids normalized_name
    unique unique_from contains field trim is_white
parse_create_space_input-IsClean_example =
    parse_create_space_input-IsClean create_body {input = created} refl

abbrev update_body : Value
update_body = object (cons_field "name" (string "desk") no_fields)

abbrev renamed : UpdateSpaceInput
renamed = record {
  name = some "desk";
  execution_user_id = none;
  config = none;
  visible_user_ids = none;
}

abbrev old_config : Fields
old_config =
    cons_field "capabilities"
      (object (cons_field "shell" (string "off") (cons_field "net" (string "on") no_fields)))
      no_fields

abbrev config_change : Fields
config_change =
    cons_field "capabilities" (object (cons_field "shell" (string "on") no_fields)) no_fields

merge_space_config-setting_example :
    setting capabilities "net" (merge_space_config old_config config_change) ≡ string "on"
unfolding has_own field
merge_space_config-setting_example =
    merge_space_config-setting capabilities "net" old_config config_change
